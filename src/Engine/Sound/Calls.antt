-- ===== src/Engine/Sound/Calls.antt =====
-- slimx_agent/engine.py: each host operation, between two readings: it keeps a sound log, and
-- the last answers.
use slimx_agent.Engine.Gates.{next_step, halted, steps_budget_reason}
use slimx_agent.Engine.Triple.{
  Triple-weaken, Triple-pure, Triple, Post, Assertion, Keeps, Triple-perform, Triple-ask,
  Keeps-bind, Keeps-pure, keeps_rules,
}
use slimx_agent.Engine.Drive.{check_budget, budget_exhausted_reason, check_wall, yield_all, drain}
use slimx_agent.Prelude.{
  ◌∙◌, ℕ, String, Bool, false, ◌≡◌, refl, Option, none, some, List, [], ◌∷◌, ◌==◌,
}
use slimx_agent.Engine.Monad.{
  perform, Drive, ◌>>=◌, get_step, set_run_status, set_step_state, rollback, append_event, run_end,
  now, drained_events,
}
use slimx_agent.Json.{ℤ}
use slimx_agent.Outcomes.{Result, ok, raised}
use slimx_agent.Store.{Run, Step, Payload, Event, Patch}
use slimx_agent.Tools.{ToolRegistry}
use slimx_agent.Engine.Host.{
  Host, Handler, RunEndHook, Call, event_appended, rolled_back, got_step, run_ended, status_set,
  state_set,
}
use slimx_agent.Engine.Step.{call_hook, run_failure_reported}
use slimx_agent.Engine.Log.{latest_answer, latest_steps, IsObserved, IsSound, Grounds, Settled}

module _ (h : Host) (registry : ToolRegistry (Handler h.World)) (run : Run) where
  abbrev pub Sound : Assertion
  Sound = IsSound registry run

  -- The drive goes on: the log is sound, and no outcome is pending.
  pub record Good (t : List Call) : Type 0 where
    pub sound : IsSound registry run t
    pub observed : IsObserved t

  -- The run and the steps as they were last read.
  pub record At (answer : Option Run) (steps : List Step) (t : List Call) : Type 0 where
    pub sound : IsSound registry run t
    pub observed : IsObserved t
    pub answer_eq : latest_answer t ≡ answer
    pub steps_eq : latest_steps t ≡ steps

module _ (h : Host) (registry : ToolRegistry (Handler h.World)) (run : Run) (answer : Option Run)
    (steps : List Step) where
  abbrev pub Here : Assertion
  Here = At h registry run answer steps

  abbrev pub KeepsHere : {A : Type 0} → Drive h A → Type 0
  KeepsHere m = Keeps Here (Sound h registry run) m

  -- An operation that is not logged.
  unlogged-Keeps :
      {A : Type 0} (op : h.World → Result A × h.World)
      → KeepsHere (λ s. let (r, w) = op s.world in (r, record s { world = w }))
  unlogged-Keeps op = record {
    at = λ s p.
        let (r, w) = op s.world in
        elim r
          as (λ r.
            Post {W = h.World} (λ _. Here) (Sound h registry run) (r, record s { world = w })) [
              | ok a ↦ p
              | raised e ↦ p.sound
            ];
  }

  -- A call that reads neither, and has its grounds.
  quiet-Keeps :
      {A : Type 0} (c : Call) (op : h.World → Result A × h.World)
      → ((t : List Call)
          → (latest_answer (c ∷ t) ≡ latest_answer t)
            × (latest_steps (c ∷ t) ≡ latest_steps t)
            × IsObserved (c ∷ t))
      → ((t : List Call) → Here t → Grounds registry run c t)
      → KeepsHere (perform c op)
  quiet-Keeps c op quiet grounds =
      Triple-perform c op
        (λ a t p.
          let (same_answer, same_steps, seen) = quiet t in
          record {
            sound = (grounds t p, p.observed, p.sound);
            observed = seen;
            answer_eq = same_answer ∙ p.answer_eq;
            steps_eq = same_steps ∙ p.steps_eq;
          })
        (λ t p. (grounds t p, p.observed, p.sound))

  pub append_event-Keeps :
      (run_id type : String) (id : Option String) (payload : Option Payload) (commit : Bool)
      → KeepsHere (append_event h run_id type id payload commit)
  unfolding append_event
  append_event-Keeps run_id type id payload commit =
      quiet-Keeps (event_appended run_id type id payload commit) _ (λ t. (refl, refl, tt))
        (λ t p. tt)

  pub rollback-Keeps : KeepsHere (rollback h)
  unfolding rollback
  rollback-Keeps = quiet-Keeps rolled_back _ (λ t. (refl, refl, tt)) (λ t p. tt)

  pub run_end-Keeps :
      (hook : RunEndHook h.World) (r : Run) (status : String) → KeepsHere (run_end h hook r status)
  unfolding run_end
  run_end-Keeps hook r status = quiet-Keeps (run_ended status) _ (λ t. (refl, refl, tt)) (λ t p. tt)

  -- Any run status but `completed`.
  pub set_run_status-Keeps :
      (r : Run) (status : String)
      → (status == "completed") ≡ false
      → KeepsHere (set_run_status h r status)
  unfolding set_run_status
  set_run_status-Keeps r status other =
      quiet-Keeps (status_set r status) _ (λ t. (refl, refl, tt)) (λ t p done. cc)

  -- The run is completed only when it is live and no step is open.
  pub set_completed-Keeps :
      (r : Run)
      → halted answer ≡ false
      → next_step steps ≡ none
      → KeepsHere (set_run_status h r "completed")
  unfolding set_run_status
  set_completed-Keeps r live none_open =
      quiet-Keeps (status_set r "completed") _ (λ t. (refl, refl, tt))
        (λ t p _. record { live = rw p.answer_eq live; none_open = rw p.steps_eq none_open })

  pub set_step_state-Keeps :
      (id status : String) (error : Patch String) (refs : Patch Payload)
      → ((t : List Call) → Here t → Settled registry run t id status refs)
      → KeepsHere (set_step_state h id status error refs)
  unfolding set_step_state
  set_step_state-Keeps id status error refs grounds =
      quiet-Keeps (state_set id status error refs) _ (λ t. (refl, refl, tt)) grounds

  pub get_step-Keeps : (id : String) → KeepsHere (get_step h id)
  unfolding get_step
  get_step-Keeps id =
      Triple-ask got_step _
        (λ a t p. record {
          sound = (tt, p.observed, p.sound);
          observed = tt;
          answer_eq = p.answer_eq;
          steps_eq = p.steps_eq;
        })
        (λ t p. p.sound)

  drained_events-Keeps : (id : String) (after : ℤ) → KeepsHere (drained_events h id after)
  unfolding drained_events
  drained_events-Keeps id after = unlogged-Keeps (h.drained_events id after)

  yield_all-Keeps : (events : List Event) → KeepsHere (yield_all h events)
  unfolding yield_all
  yield_all-Keeps [] = Keeps-pure tt
  yield_all-Keeps (e ∷ events) = record {
    at = λ s p. (yield_all-Keeps events).at _ (record {
      sound = (tt, p.observed, p.sound);
      observed = tt;
      answer_eq = p.answer_eq;
      steps_eq = p.steps_eq;
    });
  }

  pub drain-Keeps : (r : Run) → KeepsHere (drain h r)
  unfolding drain
  drain-Keeps r = record {
    at = λ s p.
        (Keeps-bind (drained_events h r.id s.cursor) (yield_all h)
            (drained_events-Keeps r.id s.cursor) yield_all-Keeps).at
          s p;
  }

  pub call_hook-Keeps :
      (hook : Option (RunEndHook h.World)) (r : Run) (status : String)
      → KeepsHere (call_hook h hook r status)
  unfolding call_hook
  call_hook-Keeps none r status = Keeps-pure tt
  call_hook-Keeps (some hook) r status = run_end-Keeps hook r status

  pub run_failure_reported-Keeps :
      (run_id id : String) → KeepsHere (run_failure_reported h run_id id)
  unfolding run_failure_reported
  run_failure_reported-Keeps run_id id = search (keeps_rules, drained_events-Keeps)

  check_wall-Keeps :
      (r : Run) (started : ℕ) (limit : Option ℕ) → KeepsHere (check_wall h r started limit)
  unfolding check_wall now ◌>>=◌
  check_wall-Keeps r started none = Keeps-pure none
  check_wall-Keeps r started (some max_wall) = record { at = λ s p. p }

  -- An answer of `none` means that the steps are within budget.
  pub budget_exhausted_reason-Triple :
      (r : Run) (started : ℕ)
      → Triple Here
          (budget_exhausted_reason h r steps started)
          (λ o t. Here t × (o ≡ none → steps_budget_reason r steps ≡ none))
          (Sound h registry run)
  unfolding budget_exhausted_reason
  budget_exhausted_reason-Triple r started = go (steps_budget_reason r steps)
    where
      go :
          (o : Option String)
          → Triple Here
              (check_budget h r started o)
              (λ a t. Here t × (a ≡ none → o ≡ none))
              (Sound h registry run)
      go (some reason) = Triple-pure (some reason) (λ t p. (p, λ e. cc))
      go none =
          Triple-weaken Here (λ _. Here) (check_wall-Keeps r started _) (λ t p. p)
            (λ a t p. (p, λ _. refl))
