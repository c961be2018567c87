-- ===== src/Engine/Log.antt =====
-- slimx_agent/engine.py: what the log of a drive says: the answers that the engine last had, and
-- the grounds on which each of its calls stands.
use slimx_agent.Outcomes.{
  Result, Raise, ok, raised, step_execution_error, step_not_applicable, step_outcome_unknown,
}
use slimx_agent.Prelude.{
  String, true, false, ◌≡◌, Option, none, some, List, [], ◌∷◌, ◌==◌, contains,
}
use slimx_agent.Contracts.{step_statuses}
use slimx_agent.Store.{Run, Step, Payload, Patch, put}
use slimx_agent.Tools.{ToolRegistry, resolve}
use slimx_agent.Policies.{permission_block_reason}
use slimx_agent.Engine.Host.{
  Handler, Call, got_run, got_steps, status_set, state_set, rolled_back, invoked,
}
use slimx_agent.Engine.Gates.{halted, fresh, next_step, steps_budget_reason, run_gate}
use slimx_agent.Engine.Step.{or_none}
use slimx_agent.Engine.Drive.{awaits_gate, can_be_skipped}

abbrev pub latest_answer : List Call → Option Run
latest_answer [] = none
latest_answer (got_run o ∷ t) = o
latest_answer (_ ∷ t) = latest_answer t

abbrev pub latest_steps : List Call → List Step
latest_steps [] = []
latest_steps (got_steps steps ∷ t) = steps
latest_steps (_ ∷ t) = latest_steps t

-- The newest call is not an invocation whose outcome was not observed.
abbrev pub IsObserved : List Call → Type 0
IsObserved (invoked step (raised (step_outcome_unknown text cause)) ∷ t) = ⊥
IsObserved _ = Unit

-- The gates that a dispatched step has passed, in the run and the steps as they were last read.
pub record Passed (run : Run) (answer : Option Run) (steps : List Step) (step : Step) : Type 0 where
  pub live : halted answer ≡ false
  pub chosen : next_step steps ≡ some step
  pub known : contains step_statuses step.status ≡ true
  pub permitted : permission_block_reason step (fresh answer run) ≡ none
  pub in_budget : steps_budget_reason (fresh answer run) steps ≡ none
  pub cleared : awaits_gate step.status ≡ true → (run_gate step (fresh answer run)).2 ≡ false

-- The grounds on which a step's state is written: the step's id, its new status, its references.
pub data Settled {H : Type 0} (registry : ToolRegistry H) (run : Run) (t : List Call)
    (id status : String) (refs : Patch Payload) : Type 0 where
  -- It moves towards dispatch, or to the human gate.
  moved :
      (step : Step)
      → next_step (latest_steps t) ≡ some step
      → step.id ≡ id
      → contains ("running" ∷ "approved" ∷ "awaiting_approval" ∷ []) status ≡ true
      → Settled registry run t id status refs
  -- The handler has just returned these references.
  completed :
      (step : Step) (out : Option Payload) (tail : List Call)
      → t ≡ invoked step (ok out) ∷ tail
      → step.id ≡ id
      → status ≡ "completed"
      → refs ≡ put (or_none out)
      → Settled registry run t id status refs
  -- The handler has just reported a failure.
  failed :
      (step : Step) (text : String) (tail : List Call)
      → t ≡ invoked step (raised (step_execution_error text)) ∷ tail
      → step.id ≡ id
      → status ≡ "failed"
      → Settled registry run t id status refs
  -- The handler blew up, and its host's state was rolled back.
  crashed :
      (step : Step) (e : Raise) (tail : List Call)
      → t ≡ rolled_back ∷ invoked step (raised e) ∷ tail
      → step.id ≡ id
      → status ≡ "failed"
      → Settled registry run t id status refs
  -- No handler is registered for the type.
  unsupported :
      (step : Step)
      → next_step (latest_steps t) ≡ some step
      → step.id ≡ id
      → resolve step.type registry ≡ none
      → status ≡ "failed"
      → Settled registry run t id status refs
  -- The handler has just said that the step does not apply.
  not_applicable :
      (step : Step) (text : String) (tail : List Call)
      → t ≡ invoked step (raised (step_not_applicable text)) ∷ tail
      → step.id ≡ id
      → status ≡ "skipped"
      → Settled registry run t id status refs
  -- The run lacks the grant of a step that has not started.
  blocked :
      (step : Step) (reason : String)
      → next_step (latest_steps t) ≡ some step
      → step.id ≡ id
      → can_be_skipped step.status ≡ true
      → permission_block_reason step (fresh (latest_answer t) run) ≡ some reason
      → status ≡ "skipped"
      → Settled registry run t id status refs

-- The run is completed when its last reading is live and no step is open.
pub record IsDone (t : List Call) : Type 0 where
  pub live : halted (latest_answer t) ≡ false
  pub none_open : next_step (latest_steps t) ≡ none

-- The answer of an invocation is what the handler of the step's type returned, in some world.
pub record Handled {W : Type 0} (registry : ToolRegistry (Handler W)) (run : Run) (step : Step)
    (answer : Result (Option Payload)) : Type 0 where
  pub handler : Handler W
  pub found : resolve step.type registry ≡ some handler
  pub world : W
  pub returned : (handler run step world).0 ≡ answer

module _ {W : Type 0} (registry : ToolRegistry (Handler W)) (run : Run) where
  abbrev pub Grounds : Call → List Call → Type 0
  Grounds (invoked step answer) t =
      Passed run (latest_answer t) (latest_steps t) step × Handled registry run step answer
  Grounds (state_set id status error refs) t = Settled registry run t id status refs
  Grounds (status_set _ status) t = (status == "completed") ≡ true → IsDone t
  Grounds _ t = Unit

  -- Every call has its grounds, and none follows an outcome that was not observed.
  abbrev pub IsSound : List Call → Type 0
  IsSound [] = Unit
  IsSound (c ∷ t) = Grounds c t × IsObserved t × IsSound t
