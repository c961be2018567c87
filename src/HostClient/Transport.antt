-- ===== src/HostClient/Transport.antt =====
-- slimx_agent/host_client.py: `HostClient` and its `_request`, over an HTTP client that is a parameter.
use slimx_agent.Prelude.{
  ℕ, String, ◌<>◌, ◌==◌, Bool, true, false, not, ◌&&◌, ◌||◌, Option, none, some, List, [], ◌∷◌,
  if◌then◌else◌, leb, eqb,
}
use slimx_agent.Json.{Json, null, str, obj, Fields, get}
use slimx_agent.Outcomes.{Raise, Result, ok, raised, value_error}
use slimx_agent.HostClient.Errors.{new_host_error, new_host_unavailable, new_protocol_error}
use slimx_agent.HostClient.Attempt.{ExecutionAttempt, headers}
use slimx_agent.HostClient.Io.{Io}

abbrev pub Headers : Type 0
Headers = List (String × String)

-- The arguments of one `client.request(…)`; an absent keyword is `none`. The timeout is in seconds.
pub record Request : Type 0 where
  pub method : String
  pub url : String
  pub json : Option Fields
  pub params : Option Fields
  pub timeout : Option ℕ
  pub headers : Option Headers

-- What the client reads of a response; a body that is not JSON has no `json`.
pub record Response : Type 0 where
  pub status_code : ℕ
  pub is_empty : Bool
  pub text : String
  pub json : Option Json

-- What came of a request: a response, a transport error (`httpx.HTTPError`) by its class and text,
-- or any other exception.
pub data Answer : Type 0 where
  response : Response → Answer
  transport_error : String → String → Answer
  broke : Raise → Answer

-- An HTTP client; `dumps` is `json.dumps(value, default=str)`.
pub record HttpClient : Type 1 where
  pub World : Type 0
  pub request : Request → World → Answer × World
  pub dumps : Json → String

-- The wrapper's own state; the transport that it shares stands beside it.
pub record HostClient : Type 0 where
  pub request_headers : Headers
  pub per_request_timeouts : Bool

abbrev pub authorization : Option String → Headers
authorization none = []
authorization (some token) = if token == "" then [] else ("Authorization", "Bearer " <> token) ∷ []

abbrev pub is_given : Option String → Bool
is_given none = false
is_given (some s) = not (s == "")

-- `HostClient(base_url, token=…, client=…)`; `injected` says whether a client is given.
unfoldable pub host_client : Option String → Option String → Bool → Result HostClient
host_client base_url token injected =
    if injected
    then ok (record { request_headers = authorization token; per_request_timeouts = false })
    else if is_given base_url
    then ok (record { request_headers = authorization token; per_request_timeouts = true })
    else raised (value_error "HostClient needs a base_url (SLIMX_AGENT_HOST_URL) or a client")

-- `{**base, **extra}` for headers.
unfoldable pub set_header : String → String → Headers → Headers
set_header k v [] = (k, v) ∷ []
set_header k v ((j, w) ∷ l) = if j == k then (j, v) ∷ l else (j, w) ∷ set_header k v l

unfoldable pub merge_headers : Headers → Headers → Headers
merge_headers base [] = base
merge_headers base ((k, v) ∷ extra) = merge_headers (set_header k v base) extra

unfoldable pub for_execution : HostClient → ExecutionAttempt → HostClient
unfolding merge_headers set_header headers
for_execution client attempt = record client {
  request_headers = merge_headers client.request_headers (headers attempt);
}

-- What `_request` returns: an allowed 404, or the body, where no content reads as `None`.
pub data Reply : Type 0 where
  not_found : Reply
  body : Json → Reply

abbrev or_text : String → String
or_text text = if text == "" then "no detail" else text

abbrev pub some_headers : Headers → Option Headers
some_headers [] = none
some_headers hs = some hs

abbrev timeout_of : HostClient → Option ℕ → Option ℕ
timeout_of client timeout = if client.per_request_timeouts then timeout else none

-- The request that `_request` sends.
unfoldable pub prepared :
    HostClient → String → String → Option Fields → Option Fields → Option ℕ → Request
prepared client method path json params timeout = record {
  method = method;
  url = "/internal/agent-host" <> path;
  json = json;
  params = params;
  timeout = timeout_of client timeout;
  headers = some_headers client.request_headers;
}

module _ (http : HttpClient) where
  abbrev detail_of : Json → String → String
  detail_of null text = or_text text
  detail_of (str s) text = if s == "" then http.dumps (str s) else s
  detail_of v text = http.dumps v

  -- `_error_detail`
  unfoldable pub error_detail : Response → String
  error_detail r = elim r.json [
    | some (obj fs) ↦ detail_of (get "detail" fs) r.text
    | _ ↦ or_text r.text
  ]

  -- A response's part of `_request`.
  unfoldable pub read_response : Bool → Response → Result Reply
  unfolding error_detail
  read_response allow_404 r =
      if eqb r.status_code 404 && allow_404
      then ok not_found
      else if leb 400 r.status_code
      then raised (new_host_error r.status_code (error_detail r))
      else if eqb r.status_code 204 || r.is_empty
      then ok (body null)
      else elim r.json [
        | none ↦ raised (new_protocol_error "the response body is not JSON")
        | some v ↦ ok (body v)
      ]

  unfoldable pub read_answer : Bool → Answer → Result Reply
  unfolding read_response
  read_answer allow_404 (response r) = read_response allow_404 r
  read_answer allow_404 (transport_error name text) =
      raised (new_host_unavailable (name <> (": " <> text)))
  read_answer allow_404 (broke e) = raised e

  unfoldable pub send : Request → Bool → Io http.World Reply
  unfolding read_answer
  send request allow_404 w =
      let (answer, w') = http.request request w in (read_answer allow_404 answer, w')
