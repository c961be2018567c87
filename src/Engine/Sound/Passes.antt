-- ===== src/Engine/Sound/Passes.antt =====
-- slimx_agent/engine.py: the loop and the completion block keep a sound log.
use slimx_agent.Engine.Gates.{halted, fresh, next_step}
use slimx_agent.Prelude.{
  zero, true, suc, if◌then◌else◌, ℕ, List, ◌≡◌, refl, false, some, none, Option,
}
use slimx_agent.Engine.Monad.{append_event, pure, set_run_status, ◌>>=◌, Drive, get_steps, get_run}
use slimx_agent.Engine.Log.{latest_steps}
use slimx_agent.Engine.Drive.{
  again, stop, finished, Ended, exhausted, drain, passes, next_pass, completion, one_pass, Flow,
  turn, leave, take_step,
}
use slimx_agent.Engine.Sound.Calls.{
  call_hook-Keeps, append_event-Keeps, set_completed-Keeps, drain-Keeps, Sound, Good, Here,
}
use slimx_agent.Engine.Triple.{
  keeps_rules, Triple-weaken, Triple-if, Keeps, Assertion, Triple, Triple-bind, Triple-pure,
  Triple-ask,
}
use slimx_agent.Engine.Step.{call_hook}
use slimx_agent.Contracts.{run_completed}
use slimx_agent.Engine.Host.{got_steps, Host, Handler, RunEndHook, got_run, Call}
use slimx_agent.Store.{Run, Step}
use slimx_agent.Tools.{ToolRegistry}
use slimx_agent.Engine.Sound.Visit.{visit-Keeps}

module _ (h : Host) (registry : ToolRegistry (Handler h.World)) (run : Run) where
  abbrev Fine : Assertion
  Fine = Good h registry run

  get_run-Triple :
      (steps : List Step) (P : Assertion)
      → ((t : List Call) → P t → Fine t × (latest_steps t ≡ steps))
      → Triple P (get_run h run.id) (λ o. Here h registry run o steps) (Sound h registry run)
  unfolding get_run
  get_run-Triple steps P facts =
      Triple-ask got_run _
        (λ o t p.
          let (fine, same) = facts t p in
          record {
            sound = (tt, fine.observed, fine.sound);
            observed = tt;
            answer_eq = refl;
            steps_eq = same;
          })
        (λ t p. (facts t p).0.sound)

  -- A pass that leaves the loop has found no open step.
  abbrev AfterPass : Flow → Assertion
  AfterPass flow t = Fine t × (flow ≡ leave → next_step (latest_steps t) ≡ none)

  module _ (hook : Option (RunEndHook h.World)) (started : ℕ) where
    take_step-Triple :
        (answer : Option Run) (steps : List Step) (found : Option Step)
        → halted answer ≡ false
        → next_step steps ≡ found
        → Triple
            (Here h registry run answer steps)
            (take_step h registry hook run (fresh answer run) steps started found)
            AfterPass
            (Sound h registry run)
    unfolding take_step
    take_step-Triple answer steps none live e =
        Triple-pure leave
          (λ t p. (record { sound = p.sound; observed = p.observed }, λ _. rw p.steps_eq e))
    take_step-Triple answer steps (some step) live e =
        Triple-bind (λ _. Here h registry run answer steps)
          (visit-Keeps h registry run answer steps hook step e live started)
          (λ x.
            Triple-pure (turn x)
              (λ t p. (record { sound = p.sound; observed = p.observed }, λ e. cc)))

    get_steps-Triple :
        (answer : Option Run) (old : List Step)
        → Triple
            (Here h registry run answer old)
            (get_steps h run.id)
            (λ steps. Here h registry run answer steps)
            (Sound h registry run)
    unfolding get_steps
    get_steps-Triple answer old =
        Triple-ask got_steps _
          (λ steps t p. record {
            sound = (tt, p.observed, p.sound);
            observed = tt;
            answer_eq = p.answer_eq;
            steps_eq = refl;
          })
          (λ t p. p.sound)

    -- The rest of a pass, after the run was read.
    rest_of_pass-Triple :
        (old : List Step) (answer : Option Run)
        → Triple
            (Here h registry run answer old)
            (if halted answer
              then (drain h run >>= λ _. pure (turn stop))
              else (get_steps h run.id >>= λ steps.
                  take_step h registry hook run (fresh answer run) steps started (next_step steps)))
            AfterPass
            (Sound h registry run)
    rest_of_pass-Triple old answer =
        Triple-if (halted answer)
          (λ _.
            Triple-bind (λ _. Here h registry run answer old)
              (drain-Keeps h registry run answer old run)
              (λ _.
                Triple-pure (turn stop)
                  (λ t p. (record { sound = p.sound; observed = p.observed }, λ e. cc))))
          (λ live.
            Triple-bind (λ steps. Here h registry run answer steps) (get_steps-Triple answer old)
              (λ steps. take_step-Triple answer steps (next_step steps) live refl))

    one_pass-Triple :
        Triple Fine (one_pass h registry hook run started) AfterPass (Sound h registry run)
    unfolding one_pass
    one_pass-Triple = record {
      at = λ s p.
          let old = latest_steps s.trace in
          (Triple-bind {P = λ t. Fine t × (latest_steps t ≡ old)} (λ o. Here h registry run o old)
              (get_run-Triple old _ (λ t q. q)) (rest_of_pass-Triple old)).at
            s (p, refl);
    }

    rest_of_completion-Triple :
        (steps : List Step) (answer : Option Run)
        → next_step steps ≡ none
        → Keeps (Here h registry run answer steps) (Sound h registry run) (
            if halted answer
            then drain h run
            else (set_run_status h run "completed" >>= λ _.
                append_event h run.id run_completed none none true >>= λ _.
                call_hook h hook run "completed" >>= λ _. drain h run))
    rest_of_completion-Triple steps answer none_open =
        Triple-if (halted answer) (λ _. drain-Keeps h registry run answer steps run)
          (λ live.
            Triple-bind (λ _. Here h registry run answer steps)
              (set_completed-Keeps h registry run answer steps run live none_open)
              (λ _. search (keeps_rules, append_event-Keeps, call_hook-Keeps, drain-Keeps)))

    completion-Triple :
        Triple
          (λ t. Fine t × (next_step (latest_steps t) ≡ none))
          (completion h registry hook run)
          (λ _. Fine)
          (Sound h registry run)
    unfolding completion
    completion-Triple = record {
      at = λ s p.
          let steps = latest_steps s.trace in
          (Triple-bind {P = λ t. Fine t × (latest_steps t ≡ steps)}
              (λ o. Here h registry run o steps) (get_run-Triple steps _ (λ t q. q))
              (λ o.
                Triple-weaken (Here h registry run o steps) (λ _. Here h registry run o steps)
                  (rest_of_completion-Triple steps o p.1) (λ t q. q)
                  (λ a t q. record { sound = q.sound; observed = q.observed }))).at
            s (p.0, refl);
    }

    next_pass-Triple :
        (flow : Flow) (rest : Drive h Ended)
        → Triple Fine rest (λ _. Fine) (Sound h registry run)
        → Triple
            (AfterPass flow)
            (next_pass h registry hook run rest flow)
            (λ _. Fine)
            (Sound h registry run)
    unfolding next_pass
    next_pass-Triple (turn again) rest more = record { at = λ s p. more.at s p.0 }
    next_pass-Triple (turn stop) rest more = Triple-pure finished (λ t p. p.0)
    next_pass-Triple leave rest more =
        Triple-bind (λ _. Fine) (record { at = λ s p. completion-Triple.at s (p.0, p.1 refl) })
          (λ _. Triple-pure finished (λ t p. p))

    pub passes-Triple :
        (fuel : ℕ)
        → Triple Fine (passes h registry hook run fuel started) (λ _. Fine) (Sound h registry run)
    unfolding passes
    passes-Triple zero = Triple-pure exhausted (λ t p. p)
    passes-Triple (suc fuel) =
        Triple-bind AfterPass one_pass-Triple (λ flow. next_pass-Triple flow _ (passes-Triple fuel))
