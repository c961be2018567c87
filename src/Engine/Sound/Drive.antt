-- ===== src/Engine/Sound/Drive.antt =====
-- slimx_agent/engine.py: a whole drive keeps a sound log.
use slimx_agent.Engine.Gates.{terminal_run_statuses}
use slimx_agent.Prelude.{contains, [], ℕ, List, ◌≡◌, refl, none, Option}
use slimx_agent.Engine.Monad.{next_sequence, State, now}
use slimx_agent.Engine.Log.{IsSound}
use slimx_agent.Engine.Drive.{execute_run_events, drive, finished}
use slimx_agent.Engine.Sound.Calls.{set_run_status-Keeps, drain-Keeps, Sound, Good, Here}
use slimx_agent.Outcomes.{raised, ok, Result}
use slimx_agent.Engine.Triple.{
  Post, Triple-weaken, Triple-if, Assertion, Triple, Triple-bind, Triple-pure,
}
use slimx_agent.Engine.Host.{Host, Handler, RunEndHook, Call}
use slimx_agent.Store.{Run}
use slimx_agent.Tools.{ToolRegistry}
use slimx_agent.Engine.Sound.Passes.{passes-Triple}

module _ (h : Host) (registry : ToolRegistry (Handler h.World)) (run : Run) where
  abbrev Fine : Assertion
  Fine = Good h registry run

  -- What precedes the loop reads and invokes nothing.
  starting-Triple :
      (hook : Option (RunEndHook h.World)) (fuel : ℕ)
      → Triple
          (Here h registry run none [])
          (drive h registry hook run fuel)
          (λ _. Fine)
          (Sound h registry run)
  unfolding drive now
  starting-Triple hook fuel =
      Triple-bind (λ _. Here h registry run none [])
        (set_run_status-Keeps h registry run none [] run "running" refl)
        (λ _.
          Triple-bind (λ _. Here h registry run none []) (drain-Keeps h registry run none [] run)
            (λ _.
              Triple-bind (λ _. Here h registry run none []) (record { at = λ s p. p })
                (λ started.
                  Triple-weaken Fine (λ _. Fine) (passes-Triple h registry run hook started fuel)
                    (λ t p. record { sound = p.sound; observed = p.observed }) (λ a t q. q))))

  Post-Sound :
      {A : Type 0} (Q : A → Assertion) (out : Result A × State h.World)
      → ((a : A) (t : List Call) → Q a t → Sound h registry run t)
      → Post Q (Sound h registry run) out
      → Sound h registry run out.1.trace
  Post-Sound Q (ok a, s) weaken q = weaken a s.trace q
  Post-Sound Q (raised e, s) weaken q = q

  abbrev Empty : Assertion
  Empty t = t ≡ []

  Empty-Sound : (t : List Call) → Empty t → Sound h registry run t
  Empty-Sound t e = rw e tt

  first_read-Triple :
      {A : Type 0} (op : h.World → Result A × h.World)
      → Triple Empty
          (λ s. let (r, w) = op s.world in (r, record s { world = w }))
          (λ _. Empty)
          (Sound h registry run)
  first_read-Triple op = record {
    at = λ s p.
        let (r, w) = op s.world in
        elim r
          as (λ r.
            Post {W = h.World} (λ _. Empty) (Sound h registry run) (r, record s { world = w })) [
              | ok a ↦ p
              | raised e ↦ Empty-Sound s.trace p
            ];
  }

  execute-Triple :
      (hook : Option (RunEndHook h.World)) (fuel : ℕ)
      → Triple Empty
          (execute_run_events h registry hook run fuel)
          (λ _. Sound h registry run)
          (Sound h registry run)
  unfolding execute_run_events next_sequence
  execute-Triple hook fuel =
      Triple-bind (λ _. Empty) (first_read-Triple (h.next_sequence run.id))
        (λ sequence.
          Triple-bind (λ _. Empty) (record { at = λ s p. p })
            (λ _.
              Triple-if (contains terminal_run_statuses run.status)
                (λ _. Triple-pure finished Empty-Sound)
                (λ _.
                  Triple-weaken (Here h registry run none []) (λ _. Fine)
                    (starting-Triple hook fuel)
                    (λ t e. record {
                      sound = Empty-Sound t e;
                      observed = rw e tt;
                      answer_eq = rw e;
                      steps_eq = rw e;
                    })
                    (λ a t q. q.sound))))

  -- The log of a drive that begins with an empty log is sound.
  pub IsSound-execute :
      (hook : Option (RunEndHook h.World)) (fuel : ℕ) (s : State h.World)
      → s.trace ≡ []
      → IsSound registry run (execute_run_events h registry hook run fuel s).1.trace
  IsSound-execute hook fuel s e =
      Post-Sound (λ _. Sound h registry run) (execute_run_events h registry hook run fuel s)
        (λ a t q. q) ((execute-Triple hook fuel).at s e)
