-- ===== src/Engine/Step.antt =====
-- slimx_agent/engine.py, `run_step` and the helpers that end a step or a run.
use slimx_agent.Prelude.{
  String, ◌<>◌, ◌==◌, Option, none, some, [], ◌∷◌, if◌then◌else◌, repr, Bool, true, false,
}
use slimx_agent.Json.{str, pos}
use slimx_agent.Contracts.{
  step_started, step_completed, step_failed, step_skipped, approval_required, run_failed,
}
use slimx_agent.Store.{Run, Step, Payload, unset, put}
use slimx_agent.Outcomes.{
  Result, ok, raised, step_action_prepared, step_outcome_unknown, step_not_applicable,
  step_execution_error, short_error,
}
use slimx_agent.Tools.{ToolRegistry, resolve}
use slimx_agent.Engine.Host.{Host, Handler, RunEndHook}
use slimx_agent.Engine.Monad.{
  Drive, pure, raise, ◌>>=◌, ◌>>◌, get_step, set_run_status, set_step_state, rollback, append_event,
  invoke, run_end, drained_events,
}
use slimx_agent.Engine.Gates.{dict_merge, failure_reported}

-- `step.type`'s entry of a payload, and one more.
abbrev typed : String → String → String → Payload
typed step_type key text = ("type", str step_type) ∷ (key, str text) ∷ []

-- `output_refs or None`
abbrev pub or_none : Option Payload → Option Payload
or_none (some []) = none
or_none refs = refs

-- `output_refs or {}`
abbrev pub or_empty : Option Payload → Payload
or_empty none = []
or_empty (some refs) = refs

abbrev pub or_step : Option Step → Step → Step
or_step none step = step
or_step (some found) step = found

module _ (h : Host) where
  unfoldable pub fail_step : Run → String → String → String → Drive h Step
  fail_step run step_id step_type message = do
    step ← set_step_state h step_id "failed" (put (some message)) unset
    append_event h run.id step_failed (some step_id) (some (typed step_type "error" message)) true
    pure step

  unfoldable pub skip_step : Run → String → String → String → Drive h Step
  skip_step run step_id step_type reason = do
    step ← set_step_state h step_id "skipped" (put none) unset
    append_event h run.id step_skipped (some step_id) (some (typed step_type "reason" reason)) true
    pure step

  unfoldable pub gate_for_approval : Run → Step → String → Drive h (Unit {0})
  gate_for_approval run step reason = do
    set_step_state h step.id "awaiting_approval" unset unset
    append_event h run.id approval_required (some step.id)
        (some
          (("title", str step.title) ∷ (if reason == "" then [] else ("reason", str reason) ∷ [])))
        true

  unfoldable pub call_hook : Option (RunEndHook h.World) → Run → String → Drive h (Unit {0})
  call_hook none run status = pure tt
  call_hook (some hook) run status = run_end h hook run status

  unfoldable pub fail_run : Option (RunEndHook h.World) → Run → String → Drive h (Unit {0})
  unfolding call_hook
  fail_run on_run_end run step_id = do
    append_event h run.id run_failed (some step_id) none false
    set_run_status h run "failed"
    call_hook on_run_end run "failed"

  unfoldable pub run_failure_reported : String → String → Drive h Bool
  run_failure_reported run_id step_id = do
    events ← drained_events h run_id (pos 0)
    pure (failure_reported step_id events)

  unfoldable pub complete_step : Run → Step → Option Payload → Drive h Step
  complete_step run step output_refs = do
    done ← set_step_state h step.id "completed" (put none) (put (or_none output_refs))
    append_event h run.id step_completed (some step.id)
        (some (dict_merge (("type", str done.type) ∷ []) (or_empty output_refs))) true
    pure done

  -- The `except` clauses of `run_step`, in their order.
  unfoldable pub settle : Run → Step → Result (Option Payload) → Drive h Step
  unfolding complete_step
  settle run step (ok output_refs) = complete_step run step output_refs
  settle run step (raised (step_action_prepared _)) = do
    found ← get_step h step.id
    pure (or_step found step)
  settle run step (raised (step_outcome_unknown text cause)) =
      raise (step_outcome_unknown text cause)
  settle run step (raised (step_not_applicable text)) = skip_step run step.id step.type text
  settle run step (raised (step_execution_error text)) = fail_step run step.id step.type text
  settle run step (raised e) = do rollback h; fail_step run step.id step.type (short_error e)

  unfoldable pub dispatch : Run → Step → Option (Handler h.World) → Drive h Step
  dispatch run step none =
      fail_step run step.id step.type ("Unsupported step type " <> repr step.type)
  dispatch run step (some handler) = do answer ← invoke h handler run step; settle run step answer

  unfoldable pub run_step : ToolRegistry (Handler h.World) → Run → Step → Drive h Step
  unfolding dispatch
  run_step registry run step = do
    set_step_state h step.id "running" unset unset
    append_event h run.id step_started (some step.id) (some (("type", str step.type) ∷ [])) true
    dispatch run step (resolve step.type registry)
