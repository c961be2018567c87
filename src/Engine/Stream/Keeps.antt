-- ===== src/Engine/Stream/Keeps.antt =====
-- slimx_agent/engine.py: assertions on the log and the cursor that every action of a drive
-- keeps, returning or raising.
use slimx_agent.Prelude.{Bool, true, false, Option, List, ◌∷◌, String, if◌then◌else◌}
use slimx_agent.Json.{ℤ}
use slimx_agent.Store.{Run, Step, Payload, Patch}
use slimx_agent.Outcomes.{Raise, Result, ok, raised}
use slimx_agent.Engine.Host.{
  Host, Handler, RunEndHook, Call, yielded, got_run, got_steps, got_step, invoked,
}
use slimx_agent.Engine.Monad.{
  State, M, pure, raise, ◌>>=◌, perform, answered, ask, attempt, get_run, get_steps, get_step,
  set_run_status, set_step_state, rollback, append_event, invoke, run_end, now, drained_events,
}

abbrev pub IsQuiet : Call → Type 0
IsQuiet (yielded event) = ⊥
IsQuiet _ = Unit

-- An assertion that no call but the yield of an event touches.
pub record Invariant : Type 1 where
  pub holds : List Call → ℤ → Type 0
  pub quiet : (c : Call) (t : List Call) (k : ℤ) → IsQuiet c → holds t k → holds (c ∷ t) k

module _ (i : Invariant) {W A : Type 0} where
  pub record Keeps (m : M W A) : Type 0 where
    pub at : (s : State W) → i.holds s.trace s.cursor → i.holds (m s).1.trace (m s).1.cursor

module _ (i : Invariant) {W A : Type 0} where
  pub Keeps-pure : (a : A) → Keeps i {W = W} (pure a)
  Keeps-pure a = record { at = λ s p. p }

  pub Keeps-raise : (e : Raise) → Keeps i {W = W} {A = A} (raise e)
  Keeps-raise e = record { at = λ s p. p }

  pub Keeps-if : (b : Bool) (m n : M W A) → Keeps i m → Keeps i n → Keeps i (if b then m else n)
  Keeps-if true m n km kn = km
  Keeps-if false m n km kn = kn

  pub Keeps-perform : (c : Call) (op : W → Result A × W) → IsQuiet c → Keeps i (perform c op)
  unfolding perform
  Keeps-perform c op q = record { at = λ s p. i.quiet c s.trace s.cursor q p }

  pub Keeps-ask :
      (log : A → Call) (op : W → Result A × W) → ((a : A) → IsQuiet (log a)) → Keeps i (ask log op)
  unfolding ask
  Keeps-ask log op q = record { at = λ s p. answer s (op s.world).0 p }
    where
      answer :
          (s : State W) (r : Result A)
          → i.holds s.trace s.cursor
          → i.holds (answered log r s.trace) s.cursor
      answer s (ok a) p = i.quiet (log a) s.trace s.cursor (q a) p
      answer s (raised e) p = p

module _ (i : Invariant) {W A : Type 0} where
  pub Keeps-attempt :
      (log : Result A → Call) (op : W → Result A × W)
      → ((r : Result A) → IsQuiet (log r))
      → Keeps i (attempt log op)
  unfolding attempt
  Keeps-attempt log op q = record {
    at = λ s p. i.quiet (log (op s.world).0) s.trace s.cursor (q (op s.world).0) p;
  }

module _ (i : Invariant) {W A B : Type 0} where
  pub Keeps-bind :
      (m : M W A) (f : A → M W B) → Keeps i m → ((a : A) → Keeps i (f a)) → Keeps i (m >>= f)
  unfolding ◌>>=◌
  Keeps-bind m f km kf = record { at = λ s p. after (m s) (km.at s p) }
    where
      after :
          (out : Result A × State W)
          → i.holds out.1.trace out.1.cursor
          → i.holds
              (elim out.0 as (λ r. Result B × State W) [
                | ok a ↦ f a out.1
                | raised e ↦ (raised e, out.1)
              ]).1.trace
              (elim out.0 as (λ r. Result B × State W) [
                | ok a ↦ f a out.1
                | raised e ↦ (raised e, out.1)
              ]).1.cursor
      after (ok a, s') p = (kf a).at s' p
      after (raised e, s') p = p

-- The host's operations.
module _ (i : Invariant) (h : Host) where
  pub get_run-Keeps : (id : String) → Keeps i (get_run h id)
  unfolding get_run
  get_run-Keeps id = Keeps-ask i got_run _ (λ a. tt)

  pub get_steps-Keeps : (id : String) → Keeps i (get_steps h id)
  unfolding get_steps
  get_steps-Keeps id = Keeps-ask i got_steps _ (λ a. tt)

  pub get_step-Keeps : (id : String) → Keeps i (get_step h id)
  unfolding get_step
  get_step-Keeps id = Keeps-ask i got_step _ (λ a. tt)

  pub set_run_status-Keeps : (run : Run) (status : String) → Keeps i (set_run_status h run status)
  unfolding set_run_status
  set_run_status-Keeps run status = Keeps-perform i _ _ tt

  pub set_step_state-Keeps :
      (id status : String) (error : Patch String) (refs : Patch Payload)
      → Keeps i (set_step_state h id status error refs)
  unfolding set_step_state
  set_step_state-Keeps id status error refs = Keeps-perform i _ _ tt

  pub rollback-Keeps : Keeps i (rollback h)
  unfolding rollback
  rollback-Keeps = Keeps-perform i _ _ tt

  pub append_event-Keeps :
      (id type : String) (step_id : Option String) (payload : Option Payload) (commit : Bool)
      → Keeps i (append_event h id type step_id payload commit)
  unfolding append_event
  append_event-Keeps id type step_id payload commit = Keeps-perform i _ _ tt

  pub invoke-Keeps :
      (handler : Handler h.World) (run : Run) (step : Step) → Keeps i (invoke h handler run step)
  unfolding invoke
  invoke-Keeps handler run step = Keeps-attempt i (invoked step) (handler run step) (λ r. tt)

  pub run_end-Keeps :
      (hook : RunEndHook h.World) (run : Run) (status : String)
      → Keeps i (run_end h hook run status)
  unfolding run_end
  run_end-Keeps hook run status = Keeps-perform i _ _ tt

  pub now-Keeps : Keeps i (now h)
  unfolding now
  now-Keeps = record { at = λ s p. p }

  pub drained_events-Keeps : (id : String) (after : ℤ) → Keeps i (drained_events h id after)
  unfolding drained_events
  drained_events-Keeps id after = record { at = λ s p. p }

pub ruleset keeps_rules = (
  Keeps-pure, Keeps-raise, Keeps-if, Keeps-bind, get_run-Keeps, get_steps-Keeps, get_step-Keeps,
  set_run_status-Keeps, set_step_state-Keeps, rollback-Keeps, append_event-Keeps, invoke-Keeps,
  run_end-Keeps, now-Keeps, drained_events-Keeps,
)
