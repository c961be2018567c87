-- ===== src/Service/Requests.antt =====
-- slimx_agent/service.py, `create_app`: the requests that the application serves one after another. The
-- environment is read anew at each. What a request is answered is in Execute and Stream; here it is
-- what it leaves behind.
use slimx_agent.Prelude.{ℕ, String, List, [], ◌∷◌}
use slimx_agent.Store.{Event}
use slimx_agent.HostClient.Transport.{HttpClient}
use slimx_agent.Service.App.{Posted, App}
use slimx_agent.Service.Execute.{execute_run}
use slimx_agent.Service.Stream.{execute_run_stream}

-- Which of the two execute endpoints a request is posted to.
pub data Endpoint : Type 0 where
  execute stream : Endpoint

module _ (http : HttpClient) (clock : http.World → ℕ × http.World) (dumps : Event → String)
    (fuel : ℕ) where
  -- One request.
  unfoldable pub serve : Endpoint → Posted → App http.World → App http.World
  serve execute posted app = (execute_run http clock posted fuel app).1
  serve stream posted app = (execute_run_stream http clock dumps posted fuel app).1

  unfoldable pub serve_all : List (Endpoint × Posted) → App http.World → App http.World
  unfolding serve
  serve_all [] app = app
  serve_all ((kind, posted) ∷ requests) app = serve_all requests (serve kind posted app)
