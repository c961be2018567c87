-- ===== src/Engine/Safety.antt =====
-- slimx_agent/engine.py: what every drive of every host obeys, read off the log of its calls.
use slimx_agent.Engine.Log.{
  Handled, latest_answer, latest_steps, IsSound, IsObserved, Grounds, Passed, IsDone,
}
use slimx_agent.Policies.{
  normalize_preapproved, hard_gated, classify_step, preapprovable_step_types,
}
use slimx_agent.Engine.Monad.{State}
use slimx_agent.Json.{Json, pos, string_members}
use slimx_agent.Prelude.{
  Bool, ℕ, String, List, [], ◌∷◌, ◌++◌, ◌≡◌, refl, true, false, some, none, Option, contains, arith,
}
use slimx_agent.Store.{Run, Step, Payload}
use slimx_agent.Outcomes.{Result, raised, step_outcome_unknown, HostFailure}
use slimx_agent.Tools.{ToolRegistry}
use slimx_agent.Policies.Gate.{
  contains-normalize_twice, contains-normalize_preapproved, hard_gate_cleared,
}
use slimx_agent.Engine.Host.{Host, Handler, RunEndHook, Call, invoked, status_set}
use slimx_agent.Engine.Gates.{fresh, run_gate, resolve_gate}
use slimx_agent.Engine.Drive.{execute_run_events, awaits_gate}
use slimx_agent.Engine.Sound.Drive.{IsSound-execute}

module _ {W : Type 0} (registry : ToolRegistry (Handler W)) (run : Run) where
  Grounds-of :
      (after : List Call) (c : Call) (before : List Call)
      → IsSound registry run (after ++ c ∷ before)
      → Grounds registry run c before
  Grounds-of [] c before s = s.0
  Grounds-of (d ∷ after) c before s = Grounds-of after c before s.2

  -- A call below another was observed.
  IsObserved-below :
      (d : Call) (after : List Call) (c : Call) (before : List Call)
      → IsSound registry run (d ∷ after ++ c ∷ before)
      → IsObserved (c ∷ before)
  IsObserved-below d [] c before s = s.1
  IsObserved-below d (e ∷ after) c before s = IsObserved-below e after c before s.2

-- The gate that let a hard-gated step pass.
resolve_gate-hard :
    (step : Step) (p : Option String) (policy : String) (auto_approve : Bool) (value : Json)
    → p ≡ some policy
    → (resolve_gate step p auto_approve value).2 ≡ false
    → (classify_step step).0 ≡ hard_gated
    → (policy ≡ "auto_complete") × (contains (normalize_preapproved value) step.type ≡ true)
unfolding resolve_gate
resolve_gate-hard step none policy auto_approve value e clear hard = cc
resolve_gate-hard step (some p) policy auto_approve value e clear hard =
    let (auto, cleared) = hard_gate_cleared p step.requires_approval _ (rw hard at clear) in
    (ground arith, cleared)

run_gate-hard :
    (step : Step) (view : Run) (policy : String)
    → (run_gate step view).2 ≡ false
    → view.approval_policy ≡ some policy
    → (classify_step step).0 ≡ hard_gated
    → (policy ≡ "auto_complete")
      × (contains (string_members view.preapproved_tools) step.type ≡ true)
      × (contains preapprovable_step_types step.type ≡ true)
unfolding run_gate
run_gate-hard step view policy clear has_policy hard =
    let (auto, cleared) = resolve_gate-hard step _ policy _ _ has_policy clear hard in
    ground (
      arith,
      contains-normalize_twice view.preapproved_tools step.type,
      contains-normalize_preapproved view.preapproved_tools step.type,
    )

-- The state in which a drive begins; its cursor is read from the host at once.
abbrev pub start : (h : Host) → h.World → State h.World
start h w = record { world = w; trace = []; cursor = pos 0 }

-- The log of a whole drive that begins in a world, newest call first.
module _ (h : Host) (registry : ToolRegistry (Handler h.World)) (hook : Option (RunEndHook h.World))
    (run : Run) (fuel : ℕ) (w : h.World) where
  abbrev pub log : List Call
  log = (execute_run_events h registry hook run fuel (start h w)).1.trace

  sound : IsSound registry run log
  sound = IsSound-execute h registry run hook fuel (start h w) refl

  -- Whatever the host answers, a handler is invoked only for the first open step of the steps last
  -- read, whose status is known, with the grant and the step budget of the run last read, which is
  -- neither paused nor cancelled; and, where the step awaits the approval gate, only if the gate
  -- does not stop.
  pub invoked-Passed :
      (after : List Call) (step : Step) (answer : Result (Option Payload)) (before : List Call)
      → log ≡ after ++ invoked step answer ∷ before
      → Passed run (latest_answer before) (latest_steps before) step
  invoked-Passed after step answer before e =
      (Grounds-of registry run after (invoked step answer) before (rw e at sound)).0

  -- The answer of an invocation came from the handler that the registry has for the step's type.
  pub invoked-Handled :
      (after : List Call) (step : Step) (answer : Result (Option Payload)) (before : List Call)
      → log ≡ after ++ invoked step answer ∷ before
      → Handled registry run step answer
  invoked-Handled after step answer before e =
      (Grounds-of registry run after (invoked step answer) before (rw e at sound)).1

  -- No policy lets a hard-gated step through unasked: one that was invoked while it awaited approval,
  -- in a run with a policy, had `auto_complete` and a stored pre-approval of its own type, which is
  -- one of the pre-approvable types.
  pub invoked-hard_gated :
      (after : List Call) (step : Step) (answer : Result (Option Payload)) (before : List Call)
      (policy : String)
      → log ≡ after ++ invoked step answer ∷ before
      → awaits_gate step.status ≡ true
      → (fresh (latest_answer before) run).approval_policy ≡ some policy
      → (classify_step step).0 ≡ hard_gated
      → (policy ≡ "auto_complete")
        × (contains (string_members (fresh (latest_answer before) run).preapproved_tools) step.type
            ≡ true)
        × (contains preapprovable_step_types step.type ≡ true)
  invoked-hard_gated after step answer before policy e waits has_policy hard =
      let passed = invoked-Passed after step answer before e in
      run_gate-hard step (fresh (latest_answer before) run) policy (passed.cleared waits) has_policy
        hard

  -- After an invocation whose outcome was not observed the drive makes no call.
  pub unknown_outcome-ends :
      (after : List Call) (step : Step) (text : String) (cause : Option HostFailure)
      (before : List Call)
      → log ≡ after ++ invoked step (raised (step_outcome_unknown text cause)) ∷ before
      → after ≡ []
  unknown_outcome-ends [] step text cause before e = refl
  unknown_outcome-ends (d ∷ after) step text cause before e = absurd (
      IsObserved-below registry run d after
        (invoked step (raised (step_outcome_unknown text cause))) before (rw e at sound))

  -- The run is declared completed only if it was last read neither paused nor cancelled, and no step
  -- of the steps last read is open.
  pub completed-IsDone :
      (after : List Call) (r : Run) (before : List Call)
      → log ≡ after ++ status_set r "completed" ∷ before
      → IsDone before
  completed-IsDone after r before e =
      Grounds-of registry run after (status_set r "completed") before (rw e at sound) refl
