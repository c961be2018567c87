-- ===== src/Engine/Stream/Steps.antt =====
-- slimx_agent/engine.py: the routines of a step and of a run's end keep every assertion that
-- only yields touch.
use slimx_agent.Prelude.{String, Option, none, some}
use slimx_agent.Store.{Run, Step, Payload}
use slimx_agent.Outcomes.{
  Result, ok, raised, step_action_prepared, step_outcome_unknown, step_not_applicable,
  step_execution_error,
}
use slimx_agent.Tools.{ToolRegistry}
use slimx_agent.Engine.Host.{Host, Handler, RunEndHook}
use slimx_agent.Engine.Step.{
  fail_step, skip_step, gate_for_approval, call_hook, fail_run, run_failure_reported, complete_step,
  settle, dispatch, run_step,
}
use slimx_agent.Engine.Stream.Keeps.{
  Invariant, Keeps, keeps_rules, run_end-Keeps, Keeps-pure, Keeps-bind, Keeps-raise, rollback-Keeps,
  invoke-Keeps,
}

module _ (i : Invariant) (h : Host) (run : Run) where
  fail_step-Keeps : (id type text : String) → Keeps i (fail_step h run id type text)
  unfolding fail_step
  fail_step-Keeps id type text = search keeps_rules

  pub skip_step-Keeps : (id type text : String) → Keeps i (skip_step h run id type text)
  unfolding skip_step
  skip_step-Keeps id type text = search keeps_rules

  pub gate_for_approval-Keeps :
      (step : Step) (reason : String) → Keeps i (gate_for_approval h run step reason)
  unfolding gate_for_approval
  gate_for_approval-Keeps step reason = search keeps_rules

  pub call_hook-Keeps :
      (hook : Option (RunEndHook h.World)) (status : String) → Keeps i (call_hook h hook run status)
  unfolding call_hook
  call_hook-Keeps none status = Keeps-pure i tt
  call_hook-Keeps (some hook) status = run_end-Keeps i h hook run status

  pub fail_run-Keeps :
      (hook : Option (RunEndHook h.World)) (id : String) → Keeps i (fail_run h hook run id)
  unfolding fail_run
  fail_run-Keeps hook id = search (keeps_rules, call_hook-Keeps)

  pub run_failure_reported-Keeps : (id : String) → Keeps i (run_failure_reported h run.id id)
  unfolding run_failure_reported
  run_failure_reported-Keeps id = search keeps_rules

  complete_step-Keeps :
      (step : Step) (refs : Option Payload) → Keeps i (complete_step h run step refs)
  unfolding complete_step
  complete_step-Keeps step refs = search keeps_rules

  settle-Keeps :
      (step : Step) (answer : Result (Option Payload)) → Keeps i (settle h run step answer)
  unfolding settle
  settle-Keeps step (ok refs) = complete_step-Keeps step refs
  settle-Keeps step (raised (step_action_prepared text)) = search keeps_rules
  settle-Keeps step (raised (step_outcome_unknown text cause)) = Keeps-raise i _
  settle-Keeps step (raised (step_not_applicable text)) = skip_step-Keeps step.id step.type text
  settle-Keeps step (raised (step_execution_error text)) = fail_step-Keeps step.id step.type text
  settle-Keeps step (raised e) =
      Keeps-bind i _ _ (rollback-Keeps i h) (λ _. fail_step-Keeps step.id step.type _)

  dispatch-Keeps :
      (step : Step) (found : Option (Handler h.World)) → Keeps i (dispatch h run step found)
  unfolding dispatch
  dispatch-Keeps step none = fail_step-Keeps step.id step.type _
  dispatch-Keeps step (some handler) =
      Keeps-bind i _ _ (invoke-Keeps i h handler run step) (settle-Keeps step)

  pub run_step-Keeps :
      (registry : ToolRegistry (Handler h.World)) (step : Step)
      → Keeps i (run_step h registry run step)
  unfolding run_step
  run_step-Keeps registry step = search (keeps_rules, dispatch-Keeps)
