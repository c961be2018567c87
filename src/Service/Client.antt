-- ===== src/Service/Client.antt =====
-- slimx_agent/service.py: the client that the application shares, `/health`, and the settings.
use slimx_agent.Prelude.{
  ℕ, String, ◌==◌, eqb, suc, ◌≡◌, refl, ◌⊎◌, inl, inr, Bool, true, false, not, Option, none, some,
  if◌then◌else◌, Bool-cases, eq_iff, arith,
}
use slimx_agent.Json.{Fields, field, end, str, bool}
use slimx_agent.Outcomes.{Raise, Result, ok, raised, value_error}
use slimx_agent.HostClient.Attempt.{ExecutionAttempt}
use slimx_agent.HostClient.Transport.{HostClient, host_client, for_execution}
use slimx_agent.Service.Auth.{HttpException, Served, answered, refused, failed, configured}

abbrev pub no_host_url : HttpException
no_host_url = record { status_code = 503; detail = "SLIMX_AGENT_HOST_URL is not configured" }

-- `os.environ.get("SLIMX_AGENT_INTERNAL_TOKEN") or None`
abbrev pub token_or_none : Option String → Option String
token_or_none env = if configured env == "" then none else env

-- `except ValueError`
abbrev unbuilt : Raise → Served ℕ
unbuilt (value_error text) = refused no_host_url
unbuilt e = failed e

-- The `HostClient` objects that there are: `object` is defined below `next`, the next reference. The
-- application's `state["client"]` is a reference to one of them.
pub record Clients : Type 0 where
  pub next : ℕ
  pub object : ℕ → HostClient
  pub shared : Option ℕ

-- A new object, and its reference.
unfoldable pub allocate : HostClient → Clients → ℕ × Clients
allocate c clients = (
  clients.next,
  record clients {
    next = suc clients.next;
    object = λ p. if eqb p clients.next then c else clients.object p;
  },
)

-- What `client()` does with a client that it has tried to build.
unfoldable pub built : Result HostClient → Clients → Served ℕ × Clients
unfolding allocate
built (ok c) clients =
    let (p, clients') = allocate c clients in (answered p, record clients' { shared = some p })
built (raised e) clients = (unbuilt e, clients)

unfoldable pub existing_or_new :
    Option ℕ → Option String → Option String → Clients → Served ℕ × Clients
unfolding host_client built
existing_or_new (some existing) url token clients = (answered existing, clients)
existing_or_new none url token clients = built (host_client url (token_or_none token) false) clients

-- `client()`, under its lock: the shared client is built at its first use.
unfoldable pub client : Option String → Option String → Clients → Served ℕ × Clients
unfolding existing_or_new
client url token clients = existing_or_new clients.shared url token clients

-- `HostClient.for_execution`: an object of its own with the fields of the base and the lease.
unfoldable pub derived : ℕ → ExecutionAttempt → Clients → ℕ × Clients
unfolding allocate for_execution
derived base attempt clients = allocate (for_execution (clients.object base) attempt) clients

-- `GET /health`
unfoldable pub health : String → Option String → Fields
health version token = field "status" (str "ok") (
    field "service" (str "slimx-agent") (
      field "version" (str version) (
        field "mode" (str "standalone")
          (field "auth_enabled" (bool (not (configured token == ""))) end))))

-- `_keepalive_seconds`: `parse` is `float(text)`, `none` where it raises a `ValueError`, and
-- `is_positive` is `value > 0`, which a NaN is not.
module _ {Seconds : Type 0} (parse : String → Option Seconds) (is_positive : Seconds → Bool)
    (default_seconds : Seconds) where
  abbrev or_default : Option Seconds → Seconds
  or_default none = default_seconds
  or_default (some value) = if is_positive value then value else default_seconds

  unfoldable pub keepalive_seconds : Option String → Seconds
  keepalive_seconds none = or_default (some default_seconds)
  keepalive_seconds (some text) = or_default (parse text)

  -- The interval of the keepalives is positive, whatever the environment says: an unset variable, a
  -- text that is no number, and a number that is not positive all give the default.
  keepalive_seconds-positive :
      (env : Option String)
      → is_positive default_seconds ≡ true
      → is_positive (keepalive_seconds env) ≡ true
  unfolding keepalive_seconds
  keepalive_seconds-positive none h = ground (arith, h)
  keepalive_seconds-positive (some text) h = by_value (parse text)
    where
      by_value : (value : Option Seconds) → is_positive (or_default value) ≡ true
      by_value none = h
      by_value (some value) = ground (arith, h)

abbrev pub NoUrl : Option String → Type 0
NoUrl none = Unit
NoUrl (some url) = url ≡ ""

-- What a use of the shared client comes to.
pub data Opened (url token : Option String) (clients : Clients) (shared : Option ℕ) : Type 0 where
  unconfigured :
      existing_or_new shared url token clients ≡ (refused no_host_url, clients)
      → shared ≡ none
      → NoUrl url
      → Opened url token clients shared
  existing :
      (p : ℕ)
      → existing_or_new shared url token clients ≡ (answered p, clients)
      → shared ≡ some p
      → Opened url token clients shared
  new :
      (c : HostClient)
      → host_client url (token_or_none token) false ≡ ok c
      → existing_or_new shared url token clients ≡ built (ok c) clients
      → shared ≡ none
      → Opened url token clients shared

unset_url :
    (url token : Option String)
    → NoUrl url ⊎ ((c : HostClient) × (host_client url token false ≡ ok c))
unfolding host_client
unset_url none token = inl tt
unset_url (some url) token = elim (Bool-cases (url == "")) [
  | inl empty ↦ inl ((eq_iff url "").0 empty)
  | inr given ↦ rw given (inr (_, refl))
]

refused_url :
    (url token : Option String) (clients : Clients)
    → NoUrl url
    → built (host_client url token false) clients ≡ (refused no_host_url, clients)
unfolding host_client built
refused_url none token clients h = refl
refused_url (some url) token clients h = rw h refl

pub opened :
    (url token : Option String) (clients : Clients) (shared : Option ℕ)
    → Opened url token clients shared
unfolding existing_or_new
opened url token clients (some p) = existing p refl refl
opened url token clients none = elim (unset_url url (token_or_none token)) [
  | inl missing ↦ unconfigured (refused_url url (token_or_none token) clients missing) refl missing
  | inr (c, ready) ↦ new c ready (rw ready refl) refl
]
