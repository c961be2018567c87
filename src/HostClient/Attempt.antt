-- ===== src/HostClient/Attempt.antt =====
-- slimx_agent/host_client.py: `ExecutionAttempt`, the lease that a host issued for one execution.
use slimx_agent.Prelude.{String, ◌==◌, Bool, true, false, List, [], ◌∷◌, strip}
use slimx_agent.Json.{ℤ, pos, negsuc}
use slimx_agent.Json.Text.{show_int}
use slimx_agent.Outcomes.{Result, ok, value_error, refuse_if, ◌>>◌}

abbrev pub lease_job_id_header : String
lease_job_id_header = "X-SlimX-Agent-Lease-Job-Id"

abbrev pub lease_token_header : String
lease_token_header = "X-SlimX-Agent-Lease-Token"

abbrev pub lease_generation_header : String
lease_generation_header = "X-SlimX-Agent-Lease-Generation"

pub record ExecutionAttempt : Type 0 where
  pub job_id : String
  pub token : String
  pub generation : ℤ

abbrev is_negative : ℤ → Bool
is_negative (pos _) = false
is_negative (negsuc _) = true

-- The constructor with its `__post_init__`, at values of the declared types.
unfoldable pub execution_attempt : String → String → ℤ → Result ExecutionAttempt
execution_attempt job_id token generation = do
  refuse_if (strip job_id == "") (value_error "Execution attempt job id must not be empty")
  refuse_if (strip token == "") (value_error "Execution attempt token must not be empty")
  refuse_if (is_negative generation)
      (value_error "Execution attempt generation must be a non-negative integer")
  ok (record { job_id = job_id; token = token; generation = generation })

unfoldable pub headers : ExecutionAttempt → List (String × String)
headers attempt =
    (lease_job_id_header, attempt.job_id)
    ∷ (lease_token_header, attempt.token)
    ∷ (lease_generation_header, show_int attempt.generation)
    ∷ []
