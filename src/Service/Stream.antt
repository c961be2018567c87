-- ===== src/Service/Stream.antt =====
-- slimx_agent/service.py, `execute_run_stream`: the drive whose events are streamed.
use slimx_agent.Prelude.{ℕ, String, ◌<>◌, Option, none, some, List, [], ◌∷◌, map}
use slimx_agent.Store.{Run, Event}
use slimx_agent.Outcomes.{
  Raise, Result, ok, raised, host_error, host_unavailable, host_protocol_error,
}
use slimx_agent.Tools.{ToolRegistry}
use slimx_agent.Engine.Host.{Handler, Call, yielded}
use slimx_agent.Engine.Drive.{execute_run_events}
use slimx_agent.Engine.Safety.{start}
use slimx_agent.HostClient.Attempt.{ExecutionAttempt}
use slimx_agent.HostClient.Profile.{RunProfile}
use slimx_agent.HostClient.Transport.{HttpClient, HostClient}
use slimx_agent.HttpStore.Store.{get_run, http_run_store}
use slimx_agent.HttpTools.{remote_handler, build_remote_registry}
use slimx_agent.Service.Auth.{
  Served, answered, refused, failed, require_internal_token, to_profile, execution_attempt,
}
use slimx_agent.Service.Edge.{host_http_error}
use slimx_agent.Service.Client.{client}
use slimx_agent.Service.App.{Posted, App, with_bound_client}
use slimx_agent.Service.Execute as plain

-- `except HostError`, around the reading of the run: its subclasses are caught with it.
unfoldable pub host_refusal : {A : Type 0} → Raise → Served A
host_refusal (host_error f) = refused (host_http_error f)
host_refusal (host_unavailable f) = refused (host_http_error f)
host_refusal (host_protocol_error f) = refused (host_http_error f)
host_refusal e = failed e

-- The events of a log, oldest first, behind those that are given.
abbrev pub events_onto : List Call → List Event → List Event
events_onto [] events = events
events_onto (yielded e ∷ t) events = events_onto t (e ∷ events)
events_onto (_ ∷ t) events = events_onto t events

-- `dumps` is `json.dumps` of an event's payload.
module _ (http : HttpClient) (clock : http.World → ℕ × http.World) (dumps : Event → String) where
  -- One server-sent event.
  unfoldable pub frame : Event → String
  frame event = "data: " <> (dumps event <> "\n\n")

  -- The generator `events()`, run to its end: whatever ends the drive, an exception as well, the
  -- stream just ends behind what was yielded.
  unfoldable pub stream_run :
      HostClient
      → RunProfile
      → Run
      → ℕ
      → Result (ToolRegistry (Handler http.World))
      → http.World
      → Served (List String) × http.World
  unfolding frame
  stream_run callback_client profile run fuel (raised e) w = (failed e, w)
  stream_run callback_client profile run fuel (ok registry) w =
      let store = http_run_store http clock callback_client in
      let (ended, s) =
        execute_run_events store registry
          (some (plain.on_run_end http clock profile callback_client)) run fuel (start store w) in
      (answered (map frame (events_onto s.trace [])), s.world)

  unfoldable pub stream_found :
      HostClient
      → RunProfile
      → ℕ
      → Result (Option Run)
      → http.World
      → Served (List String) × http.World
  unfolding stream_run host_refusal
  stream_found callback_client profile fuel (raised e) w = (host_refusal e, w)
  stream_found callback_client profile fuel (ok none) w = (refused plain.not_found, w)
  stream_found callback_client profile fuel (ok (some run)) w =
      stream_run callback_client profile run fuel
        (build_remote_registry (remote_handler http callback_client profile) none) w

  -- What the endpoint does with its callback client.
  abbrev pub stream_over : Posted → ℕ → HostClient → http.World → Served (List String) × http.World
  stream_over posted fuel callback_client w =
      let (r, w') = get_run http callback_client posted.run_id w in
      stream_found callback_client (to_profile posted.body) fuel r w'

  unfoldable pub stream_attempt :
      Posted → ℕ → Served ExecutionAttempt → App http.World → Served (List String) × App http.World
  unfolding with_bound_client stream_found
  stream_attempt posted fuel (refused x) app = (refused x, app)
  stream_attempt posted fuel (failed e) app = (failed e, app)
  stream_attempt posted fuel (answered attempt) app =
      with_bound_client attempt (client posted.host_url posted.token app.clients)
        (stream_over posted fuel) app.world

  unfoldable pub stream_admitted :
      Posted → ℕ → Served (Unit {0}) → App http.World → Served (List String) × App http.World
  unfolding stream_attempt
  stream_admitted posted fuel (refused x) app = (refused x, app)
  stream_admitted posted fuel (failed e) app = (failed e, app)
  stream_admitted posted fuel (answered _) app =
      stream_attempt posted fuel (execution_attempt posted.body) app

  -- `POST /agent/runs/{run_id}/execute/stream`, with all that the stream yields but keepalives.
  unfoldable pub execute_run_stream :
      Posted → ℕ → App http.World → Served (List String) × App http.World
  unfolding stream_admitted
  execute_run_stream posted fuel app =
      stream_admitted posted fuel (require_internal_token posted.token posted.authorization) app
