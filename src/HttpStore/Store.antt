-- ===== src/HttpStore/Store.antt =====
-- slimx_agent/http_store.py: `HttpRunStore` as a host of the engine. Each write is one callback.
use slimx_agent.Prelude.{ℕ, String, Bool, Option, none, some, List, map}
use slimx_agent.Json.{ℤ, pos, Json, int, str, Fields, get}
use slimx_agent.Json.Text.{py_str}
use slimx_agent.Store.{Run, Step, Event, Payload, Patch}
use slimx_agent.Outcomes.{each}
use slimx_agent.Engine.Host.{Host}
use slimx_agent.HostClient.Io.{Io, lift, return, ◌>>=◌, ◌>>◌}
use slimx_agent.HostClient.Transport.{HttpClient, HostClient}
use slimx_agent.HostClient.Operations as client
use slimx_agent.HttpStore.Snapshots.{run_from_wire, step_from_wire, run_view, step_view}

-- What the engine reads of an event: its sequence, its type where it is a text, and its step as text.
abbrev text_in : Json → String
text_in (str s) = s
text_in _ = ""

abbrev number_in : Json → ℤ
number_in (int i) = i
number_in _ = pos 0

unfoldable pub event_view : Fields → Event
event_view wire = record {
  sequence = number_in (get "sequence" wire);
  type = text_in (get "type" wire);
  agent_step_id = py_str (get "agent_step_id" wire);
}

module _ (http : HttpClient) (host : HostClient) where
  -- `RunSnapshot.from_wire(data) if data is not None else None`
  unfoldable pub maybe_run : Option Fields → Io http.World (Option Run)
  maybe_run none = return none
  maybe_run (some wire) = do r ← lift (run_from_wire wire); return (some (run_view r))

  unfoldable pub get_run : String → Io http.World (Option Run)
  unfolding maybe_run
  get_run run_id = do found ← client.get_run http host run_id; maybe_run found

  unfoldable pub get_steps : String → Io http.World (List Step)
  unfolding each
  get_steps run_id = do
    wires ← client.get_steps http host run_id
    steps ← lift (each step_from_wire wires)
    return (map step_view steps)

  unfoldable pub maybe_step : Option Fields → Io http.World (Option Step)
  maybe_step none = return none
  maybe_step (some wire) = do s ← lift (step_from_wire wire); return (some (step_view s))

  unfoldable pub get_step : String → Io http.World (Option Step)
  unfolding maybe_step
  get_step step_id = do found ← client.get_step http host step_id; maybe_step found

  unfoldable pub set_run_status : Run → String → Io http.World Run
  set_run_status run status = do
    wire ← client.set_run_status http host run.id status
    r ← lift (run_from_wire wire)
    return (run_view r)

  unfoldable pub set_step_state :
      String → String → Patch String → Patch Payload → Io http.World Step
  set_step_state step_id status error output_refs = do
    wire ← client.set_step_state http host step_id status error output_refs
    s ← lift (step_from_wire wire)
    return (step_view s)

  -- `commit` is accepted and ignored.
  unfoldable pub append_event :
      String → String → Option String → Option Payload → Bool → Io http.World (Unit {0})
  append_event run_id type step_id payload commit = do
    client.append_event http host run_id type step_id payload
    return tt

  unfoldable pub drained_events : String → ℤ → Io http.World (List Event)
  drained_events run_id after_sequence = do
    events ← client.events_after http host run_id after_sequence
    return (map event_view events)

-- The store, with a clock.
abbrev pub http_run_store : (http : HttpClient) → (http.World → ℕ × http.World) → HostClient → Host
http_run_store http clock host = record {
  World = http.World;
  get_run = get_run http host;
  get_steps = get_steps http host;
  get_step = get_step http host;
  set_run_status = set_run_status http host;
  set_step_state = set_step_state http host;
  rollback = return tt;
  append_event = append_event http host;
  next_sequence = client.next_sequence http host;
  drained_events = drained_events http host;
  now = clock;
}
