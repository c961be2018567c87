-- ===== src/Service/Execute.antt =====
-- slimx_agent/service.py: the execute endpoints. A request is authenticated, its lease bound to a
-- client of its own, the run read and driven by the engine over the remote host.
use slimx_agent.Prelude.{ℕ, String, Option, none, some}
use slimx_agent.Store.{Run}
use slimx_agent.Outcomes.{Raise, Result, ok, raised}
use slimx_agent.Tools.{ToolRegistry}
use slimx_agent.Engine.Host.{Handler, RunEndHook}
use slimx_agent.Engine.Drive.{Ended, finished, exhausted}
use slimx_agent.Engine.Drive as engine
use slimx_agent.Engine.Safety.{start}
use slimx_agent.HostClient.Attempt.{ExecutionAttempt}
use slimx_agent.HostClient.Profile.{RunProfile}
use slimx_agent.HostClient.Transport.{HttpClient, HostClient}
use slimx_agent.HostClient.Operations.{run_end}
use slimx_agent.HttpStore.Store.{get_run, http_run_store}
use slimx_agent.HttpTools.{remote_handler, build_remote_registry}
use slimx_agent.Service.Auth.{
  HttpException, Served, answered, refused, failed, require_internal_token, to_profile,
  execution_attempt,
}
use slimx_agent.Service.Edge.{edge_error}
use slimx_agent.Service.Client.{client}
use slimx_agent.Service.App.{Posted, App, with_bound_client}

abbrev pub not_found : HttpException
not_found = record { status_code = 404; detail = "Agent run not found" }

-- What an endpoint makes of an exception.
unfoldable pub caught : {A : Type 0} → Raise → Served A
caught e = elim (edge_error e) [ some x ↦ refused x | none ↦ failed e ]

module _ (http : HttpClient) (clock : http.World → ℕ × http.World) where
  -- The hook of `on_run_end`: a callback that fails never jeopardizes the finished run.
  unfoldable pub on_run_end : RunProfile → HostClient → RunEndHook http.World
  on_run_end profile callback_client run status w =
      let (_, w') = run_end http callback_client run.id status profile w in (ok tt, w')

  -- The run as the endpoint answers it; `exhausted` says that the fuel did not suffice.
  pub data Final : Type 0 where
    final : String → String → Final
    out_of_fuel : Final

  abbrev pub finish : Result (Ended × Run) → Served Final
  finish (ok (finished, run)) = answered (final run.id run.status)
  finish (ok (exhausted, run)) = answered out_of_fuel
  finish (raised e) = caught e

  -- The drive of a run that was found.
  unfoldable pub drive_run :
      HostClient
      → RunProfile
      → Run
      → ℕ
      → Result (ToolRegistry (Handler http.World))
      → http.World
      → Served Final × http.World
  unfolding caught
  drive_run callback_client profile run fuel (raised e) w = (failed e, w)
  drive_run callback_client profile run fuel (ok registry) w =
      let store = http_run_store http clock callback_client in
      let (r, s) =
        engine.execute_run store registry (some (on_run_end profile callback_client)) run fuel
          (start store w) in
      (finish r, s.world)

  -- `store_and_run`, and the drive.
  unfoldable pub run_found :
      HostClient → RunProfile → ℕ → Result (Option Run) → http.World → Served Final × http.World
  unfolding drive_run caught
  run_found callback_client profile fuel (raised e) w = (caught e, w)
  run_found callback_client profile fuel (ok none) w = (refused not_found, w)
  run_found callback_client profile fuel (ok (some run)) w =
      drive_run callback_client profile run fuel
        (build_remote_registry (remote_handler http callback_client profile) none) w

  -- What the endpoint does with its callback client.
  abbrev pub run_over : Posted → ℕ → HostClient → http.World → Served Final × http.World
  run_over posted fuel callback_client w =
      let (r, w') = get_run http callback_client posted.run_id w in
      run_found callback_client (to_profile posted.body) fuel r w'

  unfoldable pub with_attempt :
      Posted → ℕ → Served ExecutionAttempt → App http.World → Served Final × App http.World
  unfolding with_bound_client run_found
  with_attempt posted fuel (refused x) app = (refused x, app)
  with_attempt posted fuel (failed e) app = (failed e, app)
  with_attempt posted fuel (answered attempt) app =
      with_bound_client attempt (client posted.host_url posted.token app.clients)
        (run_over posted fuel) app.world

  -- The endpoint's body, after its token dependency.
  unfoldable pub admitted :
      Posted → ℕ → Served (Unit {0}) → App http.World → Served Final × App http.World
  unfolding with_attempt
  admitted posted fuel (refused x) app = (refused x, app)
  admitted posted fuel (failed e) app = (failed e, app)
  admitted posted fuel (answered _) app =
      with_attempt posted fuel (execution_attempt posted.body) app

  -- `POST /agent/runs/{run_id}/execute`
  unfoldable pub execute_run : Posted → ℕ → App http.World → Served Final × App http.World
  unfolding admitted
  execute_run posted fuel app =
      admitted posted fuel (require_internal_token posted.token posted.authorization) app
