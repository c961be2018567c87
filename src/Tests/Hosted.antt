-- ===== src/Tests/Hosted.antt =====
-- The remote registry's theorems, and the drives and the endpoint over a scripted host.
use slimx_agent.Prelude.{
  ◌≡◌, refl, ◌≢◌, String, false, none, some, List, [], ◌∷◌, contains, if◌then◌else◌, show,
}
use slimx_agent.Contracts.{allowed_step_types}
use slimx_agent.Outcomes.{text_of, Raise, ok, raised, host_error}
use slimx_agent.Tools.{ToolRegistry, resolve}
use slimx_agent.HttpTools.{envelope, build_remote_registry}
use slimx_agent.Policies.Normalize.{Distinct}
use slimx_agent.HttpTools.Registry.{build_remote_registry_lem}
use slimx_agent.HttpTools.Meaning.{Means}
use slimx_agent.HttpTools.Envelope.{envelope-Means}
use slimx_agent.HttpStore.Store.{get_run}
use slimx_agent.HostClient.Io.{◌>>=◌}
use slimx_agent.HostClient.Operations as callbacks
use slimx_agent.HostClient.Urls.{segment}
use slimx_agent.HostClient.Errors.{new_host_error, bounded_detail}
use slimx_agent.HostClient.Attempt.{ExecutionAttempt}
use slimx_agent.Service.Client.{client as shared_client, derived, no_host_url}
use slimx_agent.Service.App.{Posted, App}
use slimx_agent.Service.Requests.{Endpoint, execute, stream, serve_all}
use slimx_agent.Service.Leases.{Keeps, serve_all-Keeps}
use slimx_agent.HostClient.Transport.{host_client, send, Answer, response}
use slimx_agent.Service.Auth.{
  HttpException, answered, refused, require_internal_token, execution_attempt,
}
use slimx_agent.Service.Edge.{edge_error}
use slimx_agent.Service.Execute.{execute_run}
use slimx_agent.Service.Refusals.{IsAnswer, execute_run-RefusesWell, execute_run-fails_closed}
use slimx_agent.Store.{Event}
use slimx_agent.Service.Stream.{execute_run_stream}
use slimx_agent.Service.Streamed.{Agrees, execute_run_stream-Agrees}
use slimx_agent.Tests.Remote.{scripted, clock, client}
use slimx_agent.Tests.Service.{leased}

abbrev two_types : List String
two_types = "model_call" ∷ "web_search" ∷ []

two_types-Distinct : Distinct two_types
unfolding contains
two_types-Distinct = (refl, (refl, tt))

abbrev remote : String
remote = "remote"

build_remote_registry_lem_example :
    ((reg : ToolRegistry String) × (build_remote_registry remote (some two_types) ≡ ok reg)
      × ((t : String) → resolve t reg ≡ (if contains two_types t then some remote else none)))
    × (build_remote_registry remote none ≡ build_remote_registry remote (some allowed_step_types))
build_remote_registry_lem_example = build_remote_registry_lem remote two_types two_types-Distinct

abbrev busy : Raise
busy = host_error (record { status_code = 409; detail = "stale lease" })

envelope-Means_example : Means (raised busy) (envelope "s1" (raised busy))
envelope-Means_example = envelope-Means "s1" (raised busy)

-- A host that refuses the lease at once.
abbrev conflict : List Answer
conflict =
    response (record { status_code = 409; is_empty = false; text = "stale lease"; json = none })
    ∷ []

abbrev stale_lease : HttpException
stale_lease = record { status_code = 409; detail = "agent host error 409: stale lease" }

abbrev at_host : Posted
at_host = record {
  host_url = some "http://host";
  token = none;
  authorization = none;
  body = leased;
  run_id = "r1";
}

-- An application that was made with a client.
abbrev with_client : App (List Answer)
with_client = record {
  clients = record { next = 1; object = λ p. client; shared = some 0 };
  world = conflict;
}

refuses_stale : (execute_run scripted clock at_host 5 with_client).0 ≡ refused stale_lease
unfolding execute_run require_internal_token execution_attempt shared_client get_run
    callbacks.get_run ◌>>=◌ segment contains send edge_error new_host_error bounded_detail text_of
    show
refuses_stale = refl

execute_run-RefusesWell_example : IsAnswer at_host with_client.clients stale_lease
execute_run-RefusesWell_example =
    execute_run-RefusesWell scripted clock at_host 5 with_client stale_lease refuses_stale

asked_host : (execute_run scripted clock at_host 5 with_client).1.world ≢ conflict
unfolding execute_run require_internal_token execution_attempt shared_client get_run
    callbacks.get_run ◌>>=◌ segment contains send edge_error new_host_error bounded_detail text_of
    show
asked_host same = cc

execute_run-fails_closed_example :
    (require_internal_token none none ≡ answered tt)
    × ((attempt : ExecutionAttempt) × (execution_attempt leased ≡ answered attempt))
execute_run-fails_closed_example =
    execute_run-fails_closed scripted clock at_host 5 with_client asked_host

abbrev event_text : Event → String
event_text event = "{}"

execute_run_stream-Agrees_example :
    Agrees
      (execute_run_stream scripted clock event_text at_host 5 with_client)
      (execute_run scripted clock at_host 5 with_client)
execute_run_stream-Agrees_example =
    execute_run_stream-Agrees scripted clock event_text at_host 5 with_client

-- An application without a client: the first use builds it, if there is an address.
abbrev fresh_app : App (List Answer)
fresh_app = record {
  clients = record { next = 0; object = λ p. client; shared = none };
  world = conflict;
}

no_address :
    (execute_run scripted clock (record at_host { host_url = none }) 5 fresh_app).0
    ≡ refused no_host_url
unfolding execute_run require_internal_token execution_attempt shared_client host_client
no_address = refl

-- A request that builds the client, and one that finds it after the address has gone.
abbrev two_requests : List (Endpoint × Posted)
two_requests = (execute, at_host) ∷ (stream, record at_host { host_url = none }) ∷ []

abbrev served : App (List Answer)
served = serve_all scripted clock event_text 5 two_requests fresh_app

serve_all-Keeps_example : Keeps fresh_app.clients served.clients
serve_all-Keeps_example = serve_all-Keeps scripted clock event_text 5 two_requests fresh_app

-- The shared client, and one for each of the two leases.
three_objects : (served.clients.next ≡ 3) × (served.clients.shared ≡ some 0)
unfolding serve_all require_internal_token execution_attempt shared_client host_client
    execute_run_stream execute_run derived
three_objects = (refl, refl)

no_lease_shared : (served.clients.object 0).request_headers ≡ []
unfolding serve_all require_internal_token execution_attempt shared_client host_client
    execute_run_stream execute_run derived
no_lease_shared = refl
