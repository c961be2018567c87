-- ===== src/Engine/Sound/Dispatch.antt =====
-- slimx_agent/engine.py: `run_step`, entered with all gates passed: the invocation and every
-- write after it have grounds.
use slimx_agent.Engine.Log.{
  moved, unsupported, crashed, Passed, failed, not_applicable, latest_steps, latest_answer,
  IsObserved, IsSound, Settled, completed,
}
use slimx_agent.Engine.Sound.Calls.{
  get_step-Keeps, set_step_state-Keeps, At, Sound, Here, append_event-Keeps,
}
use slimx_agent.Engine.Triple.{
  Triple-weaken, Keeps, Triple-attempt, Triple-raise, Triple-perform, Assertion, Triple,
  Triple-bind, keeps_rules,
}
use slimx_agent.Prelude.{true, ap, [], contains, String, List, ◌∷◌, ◌≡◌, refl, some, none, Option}
use slimx_agent.Tools.{resolve, ToolRegistry}
use slimx_agent.Engine.Step.{
  or_step, run_step, dispatch, settle, fail_step, skip_step, complete_step, or_none,
}
use slimx_agent.Engine.Monad.{pure, invoke, ◌>>=◌, rollback, get_step, set_step_state}
use slimx_agent.Outcomes.{
  short_error, Raise, step_execution_error, step_not_applicable, step_action_prepared,
  step_outcome_unknown, raised, Result, ok,
}
use slimx_agent.Engine.Host.{rolled_back, state_set, Host, Handler, Call, invoked}
use slimx_agent.Engine.Gates.{next_step}
use slimx_agent.Store.{Patch, Run, Step, Payload, put, unset}

module _ (h : Host) (registry : ToolRegistry (Handler h.World)) (run : Run) (answer : Option Run)
    (steps : List Step) where
  abbrev Now : Assertion
  Now = Here h registry run answer steps

  -- The newest call is this invocation.
  pub record AtInvoked (step : Step) (r : Result (Option Payload)) (t : List Call) : Type 0 where
    pub sound : IsSound registry run t
    pub answer_eq : latest_answer t ≡ answer
    pub steps_eq : latest_steps t ≡ steps
    pub tail : List Call
    pub newest : t ≡ invoked step r ∷ tail

  -- The step is the one that this pass took.
  abbrev Chosen : Step → Type 0
  Chosen step = next_step steps ≡ some step

  -- An outcome that was observed leaves the drive where it was.
  abbrev IsSeen : Result (Option Payload) → Type 0
  IsSeen (raised (step_outcome_unknown text cause)) = ⊥
  IsSeen _ = Unit

  seen-IsObserved :
      (step : Step) (r : Result (Option Payload)) (tail : List Call)
      → IsSeen r
      → IsObserved (invoked step r ∷ tail)
  seen-IsObserved step (ok out) tail h = tt
  seen-IsObserved step (raised (step_outcome_unknown text cause)) tail h = h
  seen-IsObserved step (raised _) tail h = tt

  now :
      (step : Step) (r : Result (Option Payload)) (t : List Call)
      → IsSeen r
      → AtInvoked step r t
      → Now t
  now step r t seen p = record {
    sound = p.sound;
    observed = rw p.newest (seen-IsObserved step r p.tail seen);
    answer_eq = p.answer_eq;
    steps_eq = p.steps_eq;
  }

  -- A write with its grounds, at a call or between two.
  write-Triple :
      (P : Assertion) (id status : String) (error : Patch String) (refs : Patch Payload)
      → ((t : List Call) → P t → Now t × Settled registry run t id status refs)
      → Triple P (set_step_state h id status error refs) (λ _. Now) (Sound h registry run)
  unfolding set_step_state
  write-Triple P id status error refs grounds =
      Triple-perform (state_set id status error refs) _
        (λ a t p.
          let (now, g) = grounds t p in
          record {
            sound = (g, now.observed, now.sound);
            observed = tt;
            answer_eq = now.answer_eq;
            steps_eq = now.steps_eq;
          })
        (λ t p. let (now, g) = grounds t p in (g, now.observed, now.sound))

  pub fail_step-Triple :
      (P : Assertion) (step_id step_type message : String)
      → ((t : List Call) → P t → Now t × Settled registry run t step_id "failed" unset)
      → Triple P (fail_step h run step_id step_type message) (λ _. Now) (Sound h registry run)
  unfolding fail_step
  fail_step-Triple P step_id step_type message grounds =
      Triple-bind (λ _. Now) (write-Triple P step_id "failed" (put (some message)) unset grounds)
        (λ step. search (keeps_rules, append_event-Keeps))

  pub skip_step-Triple :
      (P : Assertion) (step_id step_type reason : String)
      → ((t : List Call) → P t → Now t × Settled registry run t step_id "skipped" unset)
      → Triple P (skip_step h run step_id step_type reason) (λ _. Now) (Sound h registry run)
  unfolding skip_step
  skip_step-Triple P step_id step_type reason grounds =
      Triple-bind (λ _. Now) (write-Triple P step_id "skipped" (put none) unset grounds)
        (λ step. search (keeps_rules, append_event-Keeps))

  complete_step-Triple :
      (step : Step) (out : Option Payload)
      → Triple
          (AtInvoked step (ok out))
          (complete_step h run step out)
          (λ _. Now)
          (Sound h registry run)
  unfolding complete_step
  complete_step-Triple step out =
      Triple-bind (λ _. Now)
        (write-Triple _ step.id "completed" (put none) (put (or_none out))
          (λ t p. (now step (ok out) t tt p, completed step out p.tail p.newest refl refl refl)))
        (λ done. search (keeps_rules, append_event-Keeps))

  -- A handler that blew up: the roll-back, then the failure.
  record AtRolledBack (step : Step) (e : Raise) (t : List Call) : Type 0 where
    here : At h registry run answer steps t
    tail : List Call
    newest : t ≡ rolled_back ∷ invoked step (raised e) ∷ tail

  rollback-Triple :
      (step : Step) (e : Raise)
      → IsSeen (raised e)
      → Triple
          (AtInvoked step (raised e))
          (rollback h)
          (λ _. AtRolledBack step e)
          (Sound h registry run)
  unfolding rollback
  rollback-Triple step e seen =
      Triple-perform rolled_back _
        (λ a t p. record {
          here = record {
            sound = (tt, (now step _ t seen p).observed, p.sound);
            observed = tt;
            answer_eq = p.answer_eq;
            steps_eq = p.steps_eq;
          };
          tail = p.tail;
          newest = ap (λ (l : List Call). rolled_back ∷ l) p.newest;
        })
        (λ t p. (tt, (now step _ t seen p).observed, p.sound))

  crash-Triple :
      (step : Step) (e : Raise)
      → IsSeen (raised e)
      → Triple
          (AtInvoked step (raised e))
          (rollback h >>= λ _. fail_step h run step.id step.type (short_error e))
          (λ _. Now)
          (Sound h registry run)
  crash-Triple step e seen =
      Triple-bind (λ _. AtRolledBack step e) (rollback-Triple step e seen)
        (λ _.
          fail_step-Triple _ step.id step.type _
            (λ t p. (p.here, crashed step e p.tail p.newest refl refl)))

  prepared-Triple :
      (step : Step) (text : String)
      → Triple
          (AtInvoked step (raised (step_action_prepared text)))
          (get_step h step.id >>= λ found. pure (or_step found step))
          (λ _. Now)
          (Sound h registry run)
  prepared-Triple step text =
      Triple-weaken Now (λ _. Now) (search (keeps_rules, get_step-Keeps)) (λ t p. now step _ t tt p)
        (λ a t p. p)

  -- The rest of `run_step` after the handler's answer.
  settle-Triple :
      (step : Step) (r : Result (Option Payload))
      → Triple (AtInvoked step r) (settle h run step r) (λ _. Now) (Sound h registry run)
  unfolding settle
  settle-Triple step (ok out) = complete_step-Triple step out
  settle-Triple step (raised (step_action_prepared text)) = prepared-Triple step text
  settle-Triple step (raised (step_outcome_unknown text cause)) = Triple-raise _ (λ t p. p.sound)
  settle-Triple step (raised (step_not_applicable text)) =
      skip_step-Triple _ step.id step.type text
        (λ t p. (now step _ t tt p, not_applicable step text p.tail p.newest refl refl))
  settle-Triple step (raised (step_execution_error text)) =
      fail_step-Triple _ step.id step.type text
        (λ t p. (now step _ t tt p, failed step text p.tail p.newest refl refl))
  settle-Triple step (raised e) = crash-Triple step e tt

  invoke-Triple :
      (handler : Handler h.World) (step : Step)
      → Passed run answer steps step
      → resolve step.type registry ≡ some handler
      → Triple Now (invoke h handler run step) (AtInvoked step) (Sound h registry run)
  unfolding invoke
  invoke-Triple handler step passed found = Triple-attempt (invoked step) _ (λ w t p. record {
    sound = (
      (
        rw (p.answer_eq, p.steps_eq) passed,
        record { handler = handler; found = found; world = w; returned = refl },
      ),
      p.observed,
      p.sound,
    );
    answer_eq = p.answer_eq;
    steps_eq = p.steps_eq;
    tail = t;
    newest = refl;
  })

  dispatch-Triple :
      (found : Option (Handler h.World)) (step : Step)
      → Passed run answer steps step
      → resolve step.type registry ≡ found
      → Triple Now (dispatch h run step found) (λ _. Now) (Sound h registry run)
  unfolding dispatch
  dispatch-Triple none step passed missing =
      fail_step-Triple Now step.id step.type _
        (λ t p. (p, unsupported step (rw p.steps_eq passed.chosen) refl missing refl))
  dispatch-Triple (some handler) step passed found =
      Triple-bind (AtInvoked step) (invoke-Triple handler step passed found) (settle-Triple step)

  -- A step's move towards dispatch, or to the human gate.
  pub move-Keeps :
      (step : Step) (status : String)
      → next_step steps ≡ some step
      → contains ("running" ∷ "approved" ∷ "awaiting_approval" ∷ []) status ≡ true
      → Keeps Now (Sound h registry run) (set_step_state h step.id status unset unset)
  move-Keeps step status chosen moves =
      set_step_state-Keeps h registry run answer steps step.id status unset unset
        (λ t p. moved step (rw p.steps_eq chosen) refl moves)

  pub run_step-Triple :
      (step : Step)
      → Passed run answer steps step
      → Keeps Now (Sound h registry run) (run_step h registry run step)
  unfolding run_step contains
  run_step-Triple step passed =
      Triple-bind (λ _. Now) (move-Keeps step "running" passed.chosen refl)
        (λ _.
          Triple-bind (λ _. Now) (append_event-Keeps h registry run answer steps _ _ _ _ _)
            (λ _. dispatch-Triple (resolve step.type registry) step passed refl))
