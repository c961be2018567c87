-- ===== src/Engine/Progress/Dispatch.antt =====
-- slimx_agent/engine.py: the dispatch of a step over a lawful store: it ends failed, or the loop
-- has come closer to its end.
use slimx_agent.Prelude.{
  ℕ, String, Bool, true, Option, none, some, List, [], ◌∷◌, ◌≡◌, refl, sym, subst, inl, inr,
  contains, arith, ◌∙◌,
}
use slimx_agent.Json.{ℤ}
use slimx_agent.Store.{Run, Step, Payload, Patch, Event}
use slimx_agent.Outcomes.{
  Result, ok, raised, step_action_prepared, step_outcome_unknown, step_not_applicable,
  step_execution_error, short_error,
}
use slimx_agent.Tools.{ToolRegistry, resolve}
use slimx_agent.Policies.Normalize.{Distinct}
use slimx_agent.Engine.Host.{Host, Handler, invoked}
use slimx_agent.Engine.Monad.{
  get_step, set_run_status, set_step_state, append_event, invoke, drained_events, now,
}
use slimx_agent.Engine.Gates.{next_step}
use slimx_agent.Engine.Step.{
  complete_step, skip_step, fail_step, settle, dispatch, run_step, or_step,
}
use slimx_agent.Engine.Drive.{check_wall, check_budget, budget_exhausted_reason, yield_all, drain}
use slimx_agent.Engine.Progress.Updates.{update, ids, Alike-update, Alike-ids, ids-update}
use slimx_agent.Engine.Progress.Open.{Alike-opened, Alike-closed}
use slimx_agent.Engine.Progress.Rules.{
  Assertion, Any, Runs, Quiet, Runs-pure, Runs-raise, Runs-weaken, Runs-perform, Runs-bind,
  Runs-then, Runs-after, Runs-attempt, Quiet-perform, Quiet-ask, Quiet-pure, Quiet-same, Quiet-bind,
}
use slimx_agent.Engine.Progress.Assertions.{Failed, Near, Less, Ran, Came}
use slimx_agent.Engine.Progress.Lawful.{Lawful}

module _ (h : Host) (registry : ToolRegistry (Handler h.World)) (run : Run)
    (law : Lawful h registry run) where
  pub append_event-Quiet :
      (type : String) (step_id : Option String) (payload : Option Payload) (commit : Bool)
      → Quiet law.view (append_event h run.id type step_id payload commit)
  unfolding append_event
  append_event-Quiet type step_id payload commit =
      Quiet-perform law.view _ _ (law.append_event type step_id payload commit)

  pub set_run_status-Quiet : (status : String) → Quiet law.view (set_run_status h run status)
  unfolding set_run_status
  set_run_status-Quiet status = Quiet-perform law.view _ _ (law.set_run_status status)

  get_step-Quiet : (id : String) → Quiet law.view (get_step h id)
  unfolding get_step
  get_step-Quiet id = Quiet-ask law.view _ _ (law.get_step id)

  drained_events-Quiet : (after : ℤ) → Quiet law.view (drained_events h run.id after)
  unfolding drained_events
  drained_events-Quiet after =
      Quiet-same law.view (drained_events h run.id after) (λ s. law.drained_events after s.world)

  yield_all-Quiet : (events : List Event) → Quiet law.view (yield_all h events)
  unfolding yield_all
  yield_all-Quiet [] P = record { at = λ s p. p }
  yield_all-Quiet (e ∷ events) P = record { at = λ s p. (yield_all-Quiet events P).at _ p }

  pub drain-Quiet : Quiet law.view (drain h run)
  unfolding drain
  drain-Quiet P = record {
    at = λ s p.
        (Runs-then law.view P (λ _. P) (drained_events h run.id s.cursor) (yield_all h)
            (drained_events-Quiet s.cursor) (λ events. yield_all-Quiet events P)).at
          s p;
  }

  pub now-Quiet : Quiet law.view (now h)
  unfolding now
  now-Quiet = Quiet-same law.view (now h) (λ s. law.now s.world)

  check_wall-Quiet :
      (view : Run) (started : ℕ) (max_wall : Option ℕ)
      → Quiet law.view (check_wall h view started max_wall)
  unfolding check_wall
  check_wall-Quiet view started none = Quiet-pure law.view none
  check_wall-Quiet view started (some max_wall) =
      Quiet-bind law.view _ _ now-Quiet (λ time. Quiet-pure law.view _)

  check_budget-Quiet :
      (view : Run) (started : ℕ) (reason : Option String)
      → Quiet law.view (check_budget h view started reason)
  unfolding check_budget
  check_budget-Quiet view started none = check_wall-Quiet view started _
  check_budget-Quiet view started (some reason) = Quiet-pure law.view (some reason)

  pub budget_exhausted_reason-Quiet :
      (view : Run) (steps : List Step) (started : ℕ)
      → Quiet law.view (budget_exhausted_reason h view steps started)
  unfolding budget_exhausted_reason
  budget_exhausted_reason-Quiet view steps started = check_budget-Quiet view started _

  module _ (steps : List Step) (left : ℕ) (step : Step) (chosen : next_step steps ≡ some step)
      (distinct : Distinct (ids steps)) where
    abbrev Here : Assertion
    Here = Near steps left step

    abbrev Ahead : Assertion
    Ahead = Less steps left

    set_step_state-Runs :
        (P : Assertion) (Q : Step → Assertion) (status : String) (error : Patch String)
        (refs : Patch Payload)
        → ((now : List Step) (n : ℕ) (answer : Step)
            → answer.status ≡ status
            → P now n
            → Q answer (update step.id status now) n)
        → Runs law.view P (set_step_state h step.id status error refs) Q
    unfolding set_step_state
    set_step_state-Runs P Q status error refs rule = Runs-perform law.view P Q _ _ (λ w answer e p.
        let wrote = law.set_step_state step.id status error refs w answer e in
        subst
          (λ (l : List Step).
            Q answer l (law.view.preparations (h.set_step_state step.id status error refs w).1))
          (sym wrote.stored)
          (subst (λ (k : ℕ). Q answer (update step.id status (law.view.steps_of w)) k)
            (sym wrote.left) (rule _ _ answer wrote.answered p)))

    -- A state of any kind leaves the world near, and a closed one is progress.
    pub set_near :
        (status : String) (error : Patch String) (refs : Patch Payload)
        → Runs law.view Here (set_step_state h step.id status error refs) (λ _. Here)
    set_near status error refs =
        set_step_state-Runs Here (λ _. Here) status error refs
          (λ now n answer e p. (λ next. Alike-update step.id status now next ∙ p.0 next, p.1))

    set_closed :
        (status : String) (error : Patch String) (refs : Patch Payload)
        → contains ("completed" ∷ "skipped" ∷ []) status ≡ true
        → Runs law.view Here (set_step_state h step.id status error refs) (λ _. Ahead)
    set_closed status error refs closed =
        set_step_state-Runs Here (λ _. Ahead) status error refs
          (λ now n answer e p. (
            omega (arith, Alike-closed steps now step chosen p.0 status closed),
            ids-update step.id status now ∙ Alike-ids step.id now steps p.0,
          ))

    set_status_of :
        (P : Assertion) (status : String) (error : Patch String) (refs : Patch Payload)
        → Runs law.view P
            (set_step_state h step.id status error refs)
            (λ a now n. a.status ≡ status)
    set_status_of P status error refs =
        set_step_state-Runs P _ status error refs (λ now n answer e p. e)

    complete_step-Runs :
        (refs : Option Payload) → Runs law.view Here (complete_step h run step refs) (λ _. Ahead)
    unfolding complete_step
    complete_step-Runs refs =
        Runs-bind law.view Here (λ _. Ahead) (λ _. Ahead) _ _
          (set_closed "completed" _ _ (unfold contains in refl))
          (λ done.
            Runs-then law.view Ahead (λ _. Ahead) _ _ (append_event-Quiet _ _ _ _)
              (λ _. Quiet-pure law.view done Ahead))

    pub skip_step-Runs :
        (text : String) → Runs law.view Here (skip_step h run step.id step.type text) (λ _. Ahead)
    unfolding skip_step
    skip_step-Runs text =
        Runs-bind law.view Here (λ _. Ahead) (λ _. Ahead) _ _
          (set_closed "skipped" _ _ (unfold contains in refl))
          (λ done.
            Runs-then law.view Ahead (λ _. Ahead) _ _ (append_event-Quiet _ _ _ _)
              (λ _. Quiet-pure law.view done Ahead))

    fail_step-Runs :
        (P : Assertion) (message : String)
        → Runs law.view P (fail_step h run step.id step.type message) Failed
    unfolding fail_step
    fail_step-Runs P message =
        Runs-bind law.view P Failed Failed _ _ (set_status_of P "failed" _ _) (λ ran.
          Runs-then law.view (Failed ran) Failed _ _ (append_event-Quiet _ _ _ _)
            (λ _. Runs-pure law.view (Failed ran) Failed ran (λ now n e. e)))

    fail_step-Ran :
        (P : Assertion) (message : String)
        → Runs law.view P (fail_step h run step.id step.type message) (Ran steps left)
    fail_step-Ran P message =
        Runs-weaken law.view P P (Ran steps left) Failed _ (fail_step-Runs P message) (λ now n p. p)
          (λ ran now n e. inl e)

    settle-Runs :
        (answer : Result (Option Payload))
        → Runs law.view ((Came steps left step) answer) (settle h run step answer) (Ran steps left)
    unfolding settle
    settle-Runs (ok refs) =
        Runs-weaken law.view ((Came steps left step) (ok refs)) Here (Ran steps left) (λ _. Ahead) _
          (complete_step-Runs refs) (λ now n p. p.0) (λ ran now n p. inr p)
    settle-Runs (raised (step_action_prepared text)) =
        Runs-weaken law.view ((Came steps left step) (raised (step_action_prepared text))) Ahead
          (Ran steps left) (λ _. Ahead) _
          (Runs-then law.view Ahead (λ _. Ahead) _ _ (get_step-Quiet step.id)
            (λ found. Quiet-pure law.view (or_step found step) Ahead))
          (λ now n p. (
            omega (arith, Alike-opened steps now step chosen p.0.0 distinct, p.0.1, p.1 text refl),
            Alike-ids step.id now steps p.0.0,
          ))
          (λ ran now n p. inr p)
    settle-Runs (raised (step_outcome_unknown text cause)) =
        Runs-raise law.view _ (Ran steps left) _
    settle-Runs (raised (step_not_applicable text)) =
        Runs-weaken law.view ((Came steps left step) (raised (step_not_applicable text))) Here
          (Ran steps left) (λ _. Ahead) _ (skip_step-Runs text) (λ now n p. p.0)
          (λ ran now n p. inr p)
    settle-Runs (raised (step_execution_error text)) = fail_step-Ran _ text
    settle-Runs (raised e) =
        Runs-after law.view _ (Ran steps left) _ _ (λ _. fail_step-Ran Any (short_error e))

    dispatch-Runs :
        (found : Option (Handler h.World))
        → resolve step.type registry ≡ found
        → Runs law.view Here (dispatch h run step found) (Ran steps left)
    unfolding dispatch invoke
    dispatch-Runs none e = fail_step-Ran Here _
    dispatch-Runs (some handler) e =
        let well = law.handlers step.type handler e in
        Runs-bind law.view Here (Came steps left step) (Ran steps left) _ _
          (Runs-attempt law.view Here (Came steps left step) (invoked step) (handler run step)
            (λ w p. (
              (λ next. well.alike step w next ∙ p.0 next, omega (arith, well.left_le step w)),
              λ text returned. omega (arith, well.prepares step w text returned),
            )))
          settle-Runs

    pub run_step-Runs : Runs law.view Here (run_step h registry run step) (Ran steps left)
    unfolding run_step
    run_step-Runs =
        Runs-bind law.view Here (λ _. Here) (Ran steps left) _ _ (set_near "running" _ _)
          (λ _.
            Runs-then law.view Here (Ran steps left) _ _ (append_event-Quiet _ _ _ _)
              (λ _. dispatch-Runs (resolve step.type registry) refl))
