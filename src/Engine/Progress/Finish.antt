-- ===== src/Engine/Progress/Finish.antt =====
-- slimx_agent/engine.py: the loop of a drive over a lawful store ends, and how many passes are
-- enough.
use slimx_agent.Prelude.{
  ℕ, zero, suc, ◌+◌, ◌<◌, Option, none, some, List, ◌≡◌, refl, ◌≢◌, ap, sym, subst, ◌∙◌, contains,
  arith,
}
use slimx_agent.Store.{Run, Step}
use slimx_agent.Outcomes.{Result, ok, raised, ok_inj}
use slimx_agent.Tools.{ToolRegistry}
use slimx_agent.Policies.Normalize.{Distinct}
use slimx_agent.Engine.Host.{Host, Handler, RunEndHook}
use slimx_agent.Engine.Monad.{State, Drive, pure, get_run, get_steps, next_sequence}
use slimx_agent.Engine.Gates.{next_step, halted, fresh, terminal_run_statuses}
use slimx_agent.Engine.Drive.{
  again, stop, Flow, turn, leave, Ended, finished, exhausted, take_step, one_pass, next_pass,
  passes, drive, execute_run_events, set_cursor,
}
use slimx_agent.Engine.Safety.{start}
use slimx_agent.Engine.Progress.Updates.{update, ids, opened}
use slimx_agent.Engine.Progress.Rules.{
  Assertion, Any, Runs, Ends, Quiet, Runs-pure, Runs-weaken, Runs-if, Runs-ask, Runs-bind,
  Runs-then, Runs-after, Runs-at, Runs-given, Quiet-ask, Quiet-same, Same-holds,
}
use slimx_agent.Engine.Progress.Assertions.{Less, Passing}
use slimx_agent.Engine.Progress.Lawful.{Lawful}
use slimx_agent.Engine.Progress.Dispatch.{drain-Quiet, set_run_status-Quiet, now-Quiet}
use slimx_agent.Engine.Progress.Visit.{visit-Runs}

apart : ◌≢◌ {A = Ended} finished exhausted
apart e = cc

module _ (h : Host) (registry : ToolRegistry (Handler h.World)) (run : Run)
    (law : Lawful h registry run) (hook : Option (RunEndHook h.World)) where
  get_run-Quiet : Quiet law.view (get_run h run.id)
  unfolding get_run
  get_run-Quiet = Quiet-ask law.view _ _ law.get_run

  next_sequence-Quiet : Quiet law.view (next_sequence h run.id)
  unfolding next_sequence
  next_sequence-Quiet =
      Quiet-same law.view (next_sequence h run.id) (λ s. law.next_sequence s.world)

  -- The world holds exactly these.
  abbrev Holds : List Step → ℕ → Assertion
  Holds steps left now n = (now ≡ steps) × (n ≡ left)

  module _ (steps : List Step) (left : ℕ) (distinct : Distinct (ids steps)) where
    get_steps-Runs :
        Runs law.view
          (Holds steps left)
          (get_steps h run.id)
          (λ listed now n. (listed ≡ steps) × Holds steps left now n)
    unfolding get_steps
    get_steps-Runs = Runs-ask law.view (Holds steps left) _ _ _ (λ w listed e p. (
      law.steps_read w listed e ∙ p.0,
      Same-holds law.view (Holds steps left) (law.get_steps w) p,
    ))

    take_step-Runs :
        (view : Run) (listed : List Step) (started : ℕ) (found : Option Step)
        → next_step steps ≡ found
        → Runs law.view
            (Holds steps left)
            (take_step h registry hook run view listed started found)
            (Passing steps left)
    unfolding take_step
    take_step-Runs view listed started none e =
        Runs-pure law.view (Holds steps left) (Passing steps left) leave (λ now n p. tt)
    take_step-Runs view listed started (some step) e =
        Runs-bind law.view (Holds steps left) _ (Passing steps left) _ _
          (Runs-weaken law.view (Holds steps left) _ _ _ _
            (visit-Runs h registry run law steps left step e distinct hook view listed started)
            (λ now n p. (λ status. ap (update step.id status) p.0, omega (arith, p.1)))
            (λ t now n p. p))
          (λ t. Runs-pure law.view _ (Passing steps left) (turn t) (λ now n p. p))

    one_pass-Runs :
        (started : ℕ)
        → Runs law.view
            (Holds steps left)
            (one_pass h registry hook run started)
            (Passing steps left)
    unfolding one_pass
    one_pass-Runs started =
        Runs-then law.view (Holds steps left) (Passing steps left) _ _ get_run-Quiet (λ current.
          Runs-if law.view (Holds steps left) (Passing steps left) (halted current) _ _
            (λ _.
              Runs-after law.view (Holds steps left) (Passing steps left) _ _
                (λ _. Runs-pure law.view Any (Passing steps left) (turn stop) (λ now n p. tt)))
            (λ _.
              Runs-bind law.view (Holds steps left) _ (Passing steps left) _ _ get_steps-Runs
                (λ listed. Runs-given law.view (Holds steps left) (Passing steps left) _ (λ same.
                  take_step-Runs (fresh current run) listed started (next_step listed)
                    (ap next_step (sym same))))))

  -- It ends by its own test.
  abbrev Finished : Ended → Assertion
  Finished ended now n = ended ≡ finished

  ends : (P : Assertion) → Runs law.view P (pure finished) Finished
  ends P = Runs-pure law.view P Finished finished (λ now n p. refl)

  next_pass-Runs :
      (steps : List Step) (left : ℕ) (rest : Drive h Ended)
      → ((now : List Step) (n : ℕ)
          → Less steps left now n
          → Runs law.view (Holds now n) rest Finished)
      → (flow : Flow)
      → Runs law.view (Passing steps left flow) (next_pass h registry hook run rest flow) Finished
  unfolding next_pass
  next_pass-Runs steps left rest rule (turn again) =
      Runs-at law.view (Less steps left) Finished rest rule
  next_pass-Runs steps left rest rule (turn stop) = ends Any
  next_pass-Runs steps left rest rule leave = Runs-after law.view Any Finished _ _ (λ _. ends Any)

  passes-Runs :
      (fuel started : ℕ) (steps : List Step) (left : ℕ)
      → Distinct (ids steps)
      → opened steps + left < fuel
      → Runs law.view (Holds steps left) (passes h registry hook run fuel started) Finished
  unfolding passes
  passes-Runs zero started steps left distinct enough = absurd (omega arith)
  passes-Runs (suc fuel) started steps left distinct enough =
      Runs-bind law.view (Holds steps left) (Passing steps left) Finished _ _
        (one_pass-Runs steps left distinct started)
        (next_pass-Runs steps left (passes h registry hook run fuel started) (λ now n less.
          passes-Runs fuel started now n (subst Distinct (sym less.1) distinct)
            (omega (arith, less.0))))

  drive-Runs :
      (fuel : ℕ) (steps : List Step) (left : ℕ)
      → Distinct (ids steps)
      → opened steps + left < fuel
      → Runs law.view (Holds steps left) (drive h registry hook run fuel) Finished
  unfolding drive
  drive-Runs fuel steps left distinct enough =
      Runs-then law.view (Holds steps left) Finished _ _
        (set_run_status-Quiet h registry run law "running")
        (λ _.
          Runs-then law.view (Holds steps left) Finished _ _ (drain-Quiet h registry run law) (λ _.
            Runs-then law.view (Holds steps left) Finished _ _ (now-Quiet h registry run law)
              (λ started. passes-Runs fuel started steps left distinct enough)))

  execute-Runs :
      (fuel : ℕ) (steps : List Step) (left : ℕ)
      → Distinct (ids steps)
      → opened steps + left < fuel
      → Runs law.view (Holds steps left) (execute_run_events h registry hook run fuel) Finished
  unfolding execute_run_events
  execute-Runs fuel steps left distinct enough =
      Runs-then law.view (Holds steps left) Finished _ _ next_sequence-Quiet (λ sequence.
        Runs-then law.view (Holds steps left) Finished _ _
          (Quiet-same law.view (set_cursor _) (λ s. record { steps = refl; left = refl }))
          (λ _.
            Runs-if law.view (Holds steps left) Finished (contains terminal_run_statuses run.status)
              _ _ (λ _. ends (Holds steps left)) (λ _. drive-Runs fuel steps left distinct enough)))

  -- Over a lawful store a drive ends by itself: where the steps have distinct ids, one pass more than
  -- there are open steps and preparations to come is enough.
  pub execute_run_events-ends :
      (fuel : ℕ) (w : h.World)
      → Distinct (ids (law.view.steps_of w))
      → opened (law.view.steps_of w) + law.view.preparations w < fuel
      → (execute_run_events h registry hook run fuel (start h w)).0 ≢ ok exhausted
  execute_run_events-ends fuel w distinct enough =
      ended (execute_run_events h registry hook run fuel (start h w)) (
        (execute-Runs fuel (law.view.steps_of w) (law.view.preparations w) distinct enough).at
          (start h w) (refl, refl))
    where
      ended :
          (out : Result Ended × State h.World) → Ends law.view Finished out → out.0 ≢ ok exhausted
      ended (ok a, s) e same = apart (sym e ∙ ok_inj same)
      ended (raised e, s) t same = cc
