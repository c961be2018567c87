-- ===== src/Engine/Monad.antt =====
-- slimx_agent/engine.py: the state of a drive and its actions: exceptions, the host's
-- operations, the log of calls.
use slimx_agent.Prelude.{ℕ, String, Bool, Option, List, ◌∷◌}
use slimx_agent.Json.{ℤ}
use slimx_agent.Store.{Run, Step, Payload, Event, Patch}
use slimx_agent.Outcomes.{Raise, Result, ok, raised}
use slimx_agent.Engine.Host.{
  Host, Handler, RunEndHook, Call, got_run, got_steps, got_step, status_set, state_set, rolled_back,
  event_appended, invoked, run_ended,
}

-- `trace` is the log, newest first; `cursor` is the variable that `drain` shares.
pub record State (W : Type 0) : Type 0 where
  pub world : W
  pub trace : List Call
  pub cursor : ℤ

abbrev pub M : Type 0 → Type 0 → Type 0
M W A = State W → Result A × State W

abbrev pub answered : {A : Type 0} → (A → Call) → Result A → List Call → List Call
answered log (ok a) trace = log a ∷ trace
answered log (raised e) trace = trace

module _ {W : Type 0} where
  abbrev pub pure : {A : Type 0} → A → M W A
  pure a s = (ok a, s)

  abbrev pub raise : {A : Type 0} → Raise → M W A
  raise e s = (raised e, s)

  infixl 5 ◌>>=◌ ◌>>◌
  unfoldable pub ◌>>=◌ : {A B : Type 0} → M W A → (A → M W B) → M W B
  ◌>>=◌ m f s = let (r, s') = m s in elim r [ ok a ↦ f a s' | raised e ↦ (raised e, s') ]

  abbrev pub ◌>>◌ : {A B : Type 0} → M W A → M W B → M W B
  m >> k = m >>= λ _. k

  -- A write is logged whether or not the host refuses it.
  unfoldable pub perform : {A : Type 0} → Call → (W → Result A × W) → M W A
  perform c op s = let (r, w) = op s.world in (r, record s { world = w; trace = c ∷ s.trace })

  unfoldable pub ask : {A : Type 0} → (A → Call) → (W → Result A × W) → M W A
  ask log op s =
      let (r, w) = op s.world in (r, record s { world = w; trace = answered log r s.trace })

  -- `try`: what came back is a value; the call is logged with it.
  unfoldable pub attempt : {A : Type 0} → (Result A → Call) → (W → Result A × W) → M W (Result A)
  attempt log op s =
      let (r, w) = op s.world in (ok r, record s { world = w; trace = log r ∷ s.trace })

module _ (h : Host) where
  abbrev pub Drive : Type 0 → Type 0
  Drive = M h.World

  unfoldable pub get_run : String → Drive (Option Run)
  unfolding ask
  get_run run_id = ask got_run (h.get_run run_id)

  unfoldable pub get_steps : String → Drive (List Step)
  unfolding ask
  get_steps run_id = ask got_steps (h.get_steps run_id)

  unfoldable pub get_step : String → Drive (Option Step)
  unfolding ask
  get_step step_id = ask got_step (h.get_step step_id)

  unfoldable pub set_run_status : Run → String → Drive Run
  unfolding perform
  set_run_status run status = perform (status_set run status) (h.set_run_status run status)

  unfoldable pub set_step_state : String → String → Patch String → Patch Payload → Drive Step
  unfolding perform
  set_step_state step_id status error output_refs =
      perform (state_set step_id status error output_refs)
        (h.set_step_state step_id status error output_refs)

  unfoldable pub rollback : Drive (Unit {0})
  unfolding perform
  rollback = perform rolled_back h.rollback

  unfoldable pub append_event :
      String → String → Option String → Option Payload → Bool → Drive (Unit {0})
  unfolding perform
  append_event run_id type step_id payload commit =
      perform (event_appended run_id type step_id payload commit)
        (h.append_event run_id type step_id payload commit)

  unfoldable pub invoke : Handler h.World → Run → Step → Drive (Result (Option Payload))
  unfolding attempt
  invoke handler run step = attempt (invoked step) (handler run step)

  unfoldable pub run_end : RunEndHook h.World → Run → String → Drive (Unit {0})
  unfolding perform
  run_end hook run status = perform (run_ended status) (hook run status)

  unfoldable pub now : Drive ℕ
  now s = let (t, w) = h.now s.world in (ok t, record s { world = w })

  -- `next_sequence` and `drained_events` are not logged: they decide no write of the engine but by
  -- their answers.
  unfoldable pub next_sequence : String → Drive ℤ
  next_sequence run_id s =
      let (r, w) = h.next_sequence run_id s.world in (r, record s { world = w })

  unfoldable pub drained_events : String → ℤ → Drive (List Event)
  drained_events run_id after s =
      let (r, w) = h.drained_events run_id after s.world in (r, record s { world = w })
