-- ===== src/Contracts/Events.antt =====
-- slimx_agent/contracts.py: the durable event types.
use slimx_agent.Prelude.{String, List, [], ◌∷◌}

abbrev pub run_created : String
run_created = "agent.run.created"

abbrev pub plan_created : String
plan_created = "agent.plan.created"

abbrev pub plan_approved : String
plan_approved = "agent.plan.approved"

abbrev pub step_created : String
step_created = "agent.step.created"

abbrev pub step_started : String
step_started = "agent.step.started"

abbrev pub step_completed : String
step_completed = "agent.step.completed"

abbrev pub step_failed : String
step_failed = "agent.step.failed"

abbrev pub step_skipped : String
step_skipped = "agent.step.skipped"

abbrev pub approval_required : String
approval_required = "agent.approval.required"

abbrev pub approval_granted : String
approval_granted = "agent.approval.granted"

abbrev pub artifact_created : String
artifact_created = "agent.artifact.created"

abbrev pub evidence_linked : String
evidence_linked = "agent.evidence.linked"

abbrev pub run_completed : String
run_completed = "agent.run.completed"

abbrev pub run_failed : String
run_failed = "agent.run.failed"

abbrev pub run_paused : String
run_paused = "agent.run.paused"

abbrev pub run_cancelled : String
run_cancelled = "agent.run.cancelled"

abbrev pub run_resumed : String
run_resumed = "agent.run.resumed"

abbrev pub system_element : String
system_element = "agent.system.element"

abbrev pub map_extracted : String
map_extracted = "agent.map.extracted"

abbrev pub file_written : String
file_written = "agent.file.written"

abbrev pub run_spawned : String
run_spawned = "agent.run.spawned"

abbrev pub run_joined : String
run_joined = "agent.run.joined"

abbrev pub plan_extended : String
plan_extended = "agent.plan.extended"

abbrev pub budget_exhausted : String
budget_exhausted = "agent.run.budget_exhausted"

abbrev pub approval_preauthorized : String
approval_preauthorized = "agent.approval.preauthorized"

abbrev pub report_section : String
report_section = "agent.report.section"

abbrev pub run_enqueued : String
run_enqueued = "agent.run.enqueued"

abbrev pub run_reclaimed : String
run_reclaimed = "agent.run.reclaimed"

abbrev pub event_types : List String
event_types =
    run_created ∷ plan_created ∷ plan_approved ∷ step_created ∷ step_started ∷ step_completed
    ∷ step_failed ∷ step_skipped ∷ approval_required ∷ approval_granted ∷ artifact_created
    ∷ evidence_linked ∷ run_completed ∷ run_failed ∷ run_paused ∷ run_cancelled ∷ run_resumed
    ∷ system_element ∷ map_extracted ∷ file_written ∷ run_spawned ∷ run_joined ∷ plan_extended
    ∷ budget_exhausted ∷ approval_preauthorized ∷ report_section ∷ run_enqueued ∷ run_reclaimed ∷ []
