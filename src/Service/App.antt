-- ===== src/Service/App.antt =====
-- slimx_agent/service.py, `create_app`: a request of an execute endpoint, the application's state, and
-- the part that both endpoints share: the client bound to the request's lease.
use slimx_agent.Prelude.{ℕ, String, Option}
use slimx_agent.HostClient.Attempt.{ExecutionAttempt}
use slimx_agent.HostClient.Transport.{HostClient}
use slimx_agent.Service.Auth.{Served, answered, refused, failed, ProfileBody}
use slimx_agent.Service.Client.{Clients, derived}

-- What a request finds in the environment and its headers, and what it asks for.
pub record Posted : Type 0 where
  pub host_url : Option String
  pub token : Option String
  pub authorization : Option String
  pub body : ProfileBody
  pub run_id : String

-- The clients, and the world behind their connection.
pub record App (W : Type 0) : Type 0 where
  pub clients : Clients
  pub world : W

module _ {W A : Type 0} where
  -- The outcome of a use of the world, in the application.
  abbrev pub beside : Clients → Served A × W → Served A × App W
  beside clients outcome = (outcome.0, record { clients = clients; world = outcome.1 })

  -- `client().for_execution(attempt)`, and the use of the object that it returns.
  unfoldable pub with_bound_client :
      ExecutionAttempt → Served ℕ × Clients → (HostClient → W → Served A × W) → W → Served A × App W
  with_bound_client attempt (answered base, clients) body w =
      let (callback_client, clients') = derived base attempt clients in
      beside clients' (body (clients'.object callback_client) w)
  with_bound_client attempt (refused x, clients) body w =
      (refused x, record { clients = clients; world = w })
  with_bound_client attempt (failed e, clients) body w =
      (failed e, record { clients = clients; world = w })
