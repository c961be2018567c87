-- ===== src/Tests/Remote.antt =====
-- A host that answers from a script, for the tests: each request takes the next answer.
use slimx_agent.Prelude.{ℕ, true, false, none, some, List, [], ◌∷◌}
use slimx_agent.Json.{pos, Json, str, int, Fields, end, field}
use slimx_agent.HostClient.Attempt.{ExecutionAttempt}
use slimx_agent.HostClient.Profile.{RunProfile}
use slimx_agent.HostClient.Transport.{
  HttpClient, HostClient, Request, Answer, response, transport_error,
}

abbrev next_answer : Request → List Answer → Answer × List Answer
next_answer request [] = (transport_error "ConnectError" "connection refused", [])
next_answer request (answer ∷ answers) = (answer, answers)

abbrev pub scripted : HttpClient
scripted = record { World = List Answer; request = next_answer; dumps = λ v. "{}" }

abbrev pub clock : List Answer → ℕ × List Answer
clock answers = (0, answers)

abbrev pub client : HostClient
client = record {
  request_headers = ("Authorization", "Bearer secret") ∷ [];
  per_request_timeouts = true;
}

abbrev pub attempt : ExecutionAttempt
attempt = record { job_id = "j1"; token = "t1"; generation = pos 3 }

abbrev pub ollama : RunProfile
ollama = record { provider = "ollama"; model = "qwen3"; base_url = none }

abbrev pub run_wire : Fields
run_wire = field "id" (str "r1") (
    field "status" (str "planned")
      (field "approval_policy" (str "auto_complete") (field "budget_max_steps" (int (pos 5)) end)))

abbrev pub step_wire : Fields
step_wire =
    field "id" (str "s1") (field "type" (str "model_call") (field "status" (str "pending") end))

abbrev pub answers_json : Json → Answer
answers_json v = response (record { status_code = 200; is_empty = false; text = ""; json = some v })
