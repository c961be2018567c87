-- ===== src/HttpTools/Drives.antt =====
-- The engine over the remote host: slimx_agent/engine.py driven with http_store.py's store and the
-- registry of http_tools.py, as the service composes them.
use slimx_agent.Prelude.{ℕ, ◌≡◌, Option}
use slimx_agent.Json.{Fields}
use slimx_agent.Store.{Run, Step, Payload}
use slimx_agent.Outcomes.{Raise, Result, ok, raised}
use slimx_agent.HostClient.Profile.{RunProfile}
use slimx_agent.HostClient.Transport.{HttpClient, HostClient, Request, broke}
use slimx_agent.HostClient.Operations.{invoke_step}
use slimx_agent.HttpTools.Meaning.{Settles}

module _ (http : HttpClient) (clock : http.World → ℕ × http.World) (host : HostClient)
    (profile : RunProfile) where
  -- The host's answer to the invocation of a step, in a world of the HTTP client.
  abbrev pub reply : Run → Step → http.World → Result Fields
  reply run step w = (invoke_step http host run.id step.id profile w).0

  -- What a drive goes on from: the host's reply is an envelope that settles the step, and the drive has
  -- that; or the HTTP client broke on the request with an exception that is no transport error.
  pub data Authority (run : Run) (step : Step) (answer : Result (Option Payload)) : Type 0 where
    named :
        (w : http.World) (result : Fields)
        → reply run step w ≡ ok result
        → Settles result answer
        → Authority run step answer
    broke_off :
        (w : http.World) (request : Request) (e : Raise)
        → reply run step w ≡ raised e
        → (http.request request w).0 ≡ broke e
        → answer ≡ raised e
        → Authority run step answer
