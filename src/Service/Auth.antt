-- ===== src/Service/Auth.antt =====
-- slimx_agent/service.py: the tokens, and the execution lease of a request's body.
use slimx_agent.Prelude.{
  ℕ, String, ◌<>◌, ◌==◌, Bool, true, false, not, ◌&&◌, ◌||◌, Option, none, some, List, [], ◌∷◌,
  if◌then◌else◌, eqb, is_some,
}
use slimx_agent.Json.{pos}
use slimx_agent.Outcomes.{Raise}
use slimx_agent.HostClient.Attempt.{ExecutionAttempt}
use slimx_agent.HostClient.Profile.{RunProfile}
use slimx_agent.HostClient.Urls.{utf8}

-- An `HTTPException`.
pub record HttpException : Type 0 where
  pub status_code : ℕ
  pub detail : String

-- What an endpoint's code gives: a value, a refusal, or an exception that nothing handles.
pub data Served {ℓ} (A : Type ℓ) : Type ℓ where
  answered : A → Served A
  refused : HttpException → Served A
  failed : Raise → Served A

-- `secrets.compare_digest` of two byte strings.
unfoldable pub compare_digest : List ℕ → List ℕ → Bool
compare_digest [] [] = true
compare_digest (a ∷ s) (b ∷ t) = eqb a b && compare_digest s t
compare_digest _ _ = false

-- `_token_matches`
unfoldable pub token_matches : Option String → String → Bool
unfolding compare_digest
token_matches none token = false
token_matches (some authorization) token =
    compare_digest (utf8 authorization) (utf8 ("Bearer " <> token))

-- The configured token, where an unset variable and an empty one are the same.
abbrev pub configured : Option String → String
configured none = ""
configured (some token) = token

-- `require_internal_token`: without a configured token there is no authentication.
unfoldable pub require_internal_token : Option String → Option String → Served (Unit {0})
unfolding token_matches
require_internal_token env authorization =
    if configured env == ""
    then answered tt
    else if token_matches authorization (configured env)
    then answered tt
    else refused
        (record { status_code = 401; detail = "Missing or invalid internal service token" })

-- `require_run_check_token`: command execution has no mode without a token.
unfoldable pub require_run_check_token : Option String → Option String → Served (Unit {0})
unfolding token_matches
require_run_check_token env authorization =
    if configured env == ""
    then refused (record {
      status_code = 503;
      detail = "run-check requires SLIMX_AGENT_INTERNAL_TOKEN on this service";
    })
    else if token_matches authorization (configured env)
    then answered tt
    else refused
        (record { status_code = 401; detail = "Missing or invalid internal service token" })

-- A `ProfileBody` whose fields pydantic has read; a UUID stands by its text.
pub record ProfileBody : Type 0 where
  pub provider : String
  pub model : String
  pub base_url : Option String
  pub lease_job_id : Option String
  pub lease_token : Option String
  pub lease_generation : Option ℕ

unfoldable pub to_profile : ProfileBody → RunProfile
to_profile body = record { provider = body.provider; model = body.model; base_url = body.base_url }

abbrev pub attempt_of : Option String → Option String → Option ℕ → Served ExecutionAttempt
attempt_of (some job_id) (some token) (some generation) =
    answered (record { job_id = job_id; token = token; generation = pos generation })
attempt_of _ _ _ =
    refused (record { status_code = 422; detail = "Agent execution lease is required" })

-- `ProfileBody.execution_attempt`: the lease is required here. The texts of UUIDs are not blank and
-- the generation is not negative, so that the attempt's own checks pass.
unfoldable pub execution_attempt : ProfileBody → Served ExecutionAttempt
execution_attempt body = attempt_of body.lease_job_id body.lease_token body.lease_generation

abbrev pub is_whole : Option String → Option String → Option ℕ → Bool
is_whole job_id token generation =
    let any_supplied = is_some job_id || is_some token || is_some generation in
    let all_supplied = is_some job_id && is_some token && is_some generation in
    not (any_supplied && not all_supplied)

-- `validate_complete_lease`: whether the body is accepted.
unfoldable pub validate_complete_lease : ProfileBody → Bool
validate_complete_lease body = is_whole body.lease_job_id body.lease_token body.lease_generation
