-- ===== src/Engine/Host.antt =====
-- slimx_agent/store.py (`RunStore`), tools.py (`ToolHandler`) and the clock: what a host implements.
-- A host is a parameter of the engine. Each operation may change the host's world in any way, may
-- answer anything, and may raise: other users act between any two calls.
use slimx_agent.Prelude.{ℕ, String, Bool, Option, List}
use slimx_agent.Json.{ℤ}
use slimx_agent.Store.{Run, Step, Payload, Event, Patch}
use slimx_agent.Outcomes.{Result}

pub record Host : Type 1 where
  pub World : Type 0
  pub get_run : String → World → Result (Option Run) × World
  pub get_steps : String → World → Result (List Step) × World
  pub get_step : String → World → Result (Option Step) × World
  pub set_run_status : Run → String → World → Result Run × World
  -- step id, status, error, output references
  pub set_step_state : String → String → Patch String → Patch Payload → World → Result Step × World
  pub rollback : World → Result (Unit {0}) × World
  -- run id, event type, step id, payload, commit
  pub append_event :
      String → String → Option String → Option Payload → Bool → World → Result (Unit {0}) × World
  pub next_sequence : String → World → Result ℤ × World
  pub drained_events : String → ℤ → World → Result (List Event) × World
  -- `time.monotonic()`, in nanoseconds
  pub now : World → ℕ × World

-- `handler(store.handler_context, run, step, profile)`, at the host's context and profile.
abbrev pub Handler : Type 0 → Type 0
Handler W = Run → Step → W → Result (Option Payload) × W

-- `on_run_end(run, status)`
abbrev pub RunEndHook : Type 0 → Type 0
RunEndHook W = Run → String → W → Result (Unit {0}) × W

-- What a drive asks of the host and yields to its caller, as a log. A read is logged with its
-- answer, an invocation with what came back; a read that raised is not logged.
pub data Call : Type 0 where
  got_run : Option Run → Call
  got_steps : List Step → Call
  got_step : Option Step → Call
  status_set : Run → String → Call
  state_set : String → String → Patch String → Patch Payload → Call
  rolled_back : Call
  event_appended : String → String → Option String → Option Payload → Bool → Call
  invoked : Step → Result (Option Payload) → Call
  run_ended : String → Call
  yielded : Event → Call
