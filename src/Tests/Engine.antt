-- ===== src/Tests/Engine.antt =====
-- The engine's theorems at drives in memory.
use slimx_agent.Prelude.{◌≡◌, refl, String, lookup, List, [], ◌∷◌, ◌++◌, some, none, true, contains}
use slimx_agent.Json.{string_members, str, bool, pos}
use slimx_agent.Store.{unset, Event}
use slimx_agent.Outcomes.{raised, step_outcome_unknown}
use slimx_agent.Policies.{preapprovable_step_types, classify_step, hard_gated}
use slimx_agent.Engine.Drive.{awaits_gate}
use slimx_agent.Engine.Host.{
  Call, invoked, state_set, status_set, got_run, got_steps, event_appended, yielded,
}
use slimx_agent.Engine.Log.{Passed, IsDone}
use slimx_agent.Engine.Safety.{
  log, invoked-Passed, invoked-hard_gated, unknown_outcome-ends, completed-IsDone,
}
use slimx_agent.Tests.Memory.{memory}
use slimx_agent.Tests.Drives.{
  auto_run, searching, writing, world, handlers, run_log, lossy, idle, driven_run,
}

abbrev before_running : List Call
before_running =
    event_appended "r1" "agent.approval.granted" (some "s1")
      (some (
        ("auto", bool true)
        ∷ ("policy", str "auto_complete")
        ∷ ("classification", str "hard_gated")
        ∷ ("preapproved", bool true)
        ∷ []))
      true
    ∷ state_set "s1" "approved" unset unset
    ∷ got_steps (searching ∷ writing ∷ [])
    ∷ got_run (some driven_run)
    ∷ status_set auto_run "running"
    ∷ []

abbrev started : Call
started =
    event_appended "r1" "agent.step.started" (some "s1") (some (("type", str "web_search") ∷ []))
      true

abbrev lost : Call
lost = invoked searching (raised (step_outcome_unknown "no answer" none))

abbrev before_search : List Call
before_search = started ∷ state_set "s1" "running" unset unset ∷ before_running

search_lost : log memory lossy none auto_run 5 world ≡ [] ++ lost ∷ before_search
unfolding run_log
search_lost = refl

invoked-Passed_example : Passed auto_run (some driven_run) (searching ∷ writing ∷ []) searching
invoked-Passed_example =
    invoked-Passed memory lossy none auto_run 5 world [] searching
      (raised (step_outcome_unknown "no answer" none)) before_search search_lost

search_waits : awaits_gate "pending" ≡ true
unfolding contains
search_waits = refl

search_hard : (classify_step searching).0 ≡ hard_gated
unfolding classify_step lookup
search_hard = refl

invoked-hard_gated_example :
    (◌≡◌ {A = String} "auto_complete" "auto_complete")
    × (contains (string_members driven_run.preapproved_tools) "web_search" ≡ true)
    × (contains preapprovable_step_types "web_search" ≡ true)
invoked-hard_gated_example =
    invoked-hard_gated memory lossy none auto_run 5 world [] searching
      (raised (step_outcome_unknown "no answer" none)) before_search "auto_complete" search_lost
      search_waits refl search_hard

unknown_outcome-ends_example : ◌≡◌ {A = List Call} [] []
unknown_outcome-ends_example =
    unknown_outcome-ends memory lossy none auto_run 5 world [] searching "no answer" none
      before_search search_lost

abbrev completion_event : Event
completion_event = record { sequence = pos 1; type = "agent.run.completed"; agent_step_id = "None" }

abbrev before_end : List Call
before_end =
    got_run (some driven_run)
    ∷ got_steps []
    ∷ got_run (some driven_run)
    ∷ status_set auto_run "running"
    ∷ []

idle_completed :
    log memory handlers none auto_run 5 idle
    ≡ (yielded completion_event ∷ event_appended "r1" "agent.run.completed" none none true ∷ [])
      ++ status_set auto_run "completed" ∷ before_end
unfolding run_log
idle_completed = refl

completed-IsDone_example : IsDone before_end
completed-IsDone_example =
    completed-IsDone memory handlers none auto_run 5 idle
      (yielded completion_event ∷ event_appended "r1" "agent.run.completed" none none true ∷ [])
      auto_run before_end idle_completed
