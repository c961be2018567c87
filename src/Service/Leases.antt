-- ===== src/Service/Leases.antt =====
-- slimx_agent/service.py: what the requests leave in the client objects, the one that they share above
-- all.
use slimx_agent.Prelude.{
  ℕ, ◌<◌, ◌≤◌, suc, String, ◌==◌, ◌≡◌, refl, sym, subst, ◌∙◌, Option, none, some, List, [], ◌∷◌,
  lookup, true, false, Bool-cases, inl, inr, arith,
}
use slimx_agent.Store.{Event}
use slimx_agent.Outcomes.{ok, ok_inj}
use slimx_agent.HostClient.Attempt.{
  ExecutionAttempt, lease_job_id_header, lease_token_header, lease_generation_header,
}
use slimx_agent.HostClient.Transport.{
  HttpClient, HostClient, host_client, authorization, is_given, for_execution,
}
use slimx_agent.Service.Auth.{
  Served, answered, refused, failed, require_internal_token, execution_attempt,
}
use slimx_agent.Service.Client.{
  Clients, client, opened, unconfigured, existing, new, built, allocate, derived, token_or_none,
}
use slimx_agent.Service.App.{Posted, App, with_bound_client}
use slimx_agent.Service.Execute.{with_attempt, admitted, execute_run, run_over}
use slimx_agent.Service.Stream.{stream_attempt, stream_admitted, execute_run_stream, stream_over}
use slimx_agent.Service.Requests.{Endpoint, execute, stream, serve, serve_all}

-- A client that sends no lease of its own.
pub record IsUnleased (c : HostClient) : Type 0 where
  pub job_id : lookup lease_job_id_header c.request_headers ≡ none
  pub token : lookup lease_token_header c.request_headers ≡ none
  pub generation : lookup lease_generation_header c.request_headers ≡ none

-- The shared client, where there is one, is an object that there is, and sends no lease.
pub record IsClean (clients : Clients) : Type 0 where
  pub at : (p : ℕ) → clients.shared ≡ some p → (p < clients.next) × IsUnleased (clients.object p)

-- The client that is built of a token.
abbrev client_of : Option String → HostClient
client_of token = record { request_headers = authorization token; per_request_timeouts = true }

client_of-IsUnleased : (token : Option String) → IsUnleased (client_of token)
unfolding lookup
client_of-IsUnleased none = record { job_id = refl; token = refl; generation = refl }
client_of-IsUnleased (some t) = elim (Bool-cases (t == "")) [
  | inl empty ↦ record { job_id = rw empty refl; token = rw empty refl; generation = rw empty refl }
  | inr says ↦ record { job_id = rw says refl; token = rw says refl; generation = rw says refl }
]

new-IsUnleased :
    (url token : Option String) (c : HostClient) → host_client url token false ≡ ok c → IsUnleased c
unfolding host_client
new-IsUnleased url token c e = elim (Bool-cases (is_given url)) [
  | inl given ↦ subst IsUnleased (ok_inj (rw given at e)) (client_of-IsUnleased token)
  | inr nothing ↦ absurd (cc (rw nothing at e))
]

-- What becomes of the objects: those that there were are as they were, and the shared client stays the
-- one it was and sends no lease.
pub record Keeps (before after : Clients) : Type 0 where
  pub more : before.next ≤ after.next
  pub same : (p : ℕ) → p < before.next → after.object p ≡ before.object p
  pub shared : (p : ℕ) → before.shared ≡ some p → after.shared ≡ some p
  pub clean : IsClean before → IsClean after

Keeps-refl : (clients : Clients) → Keeps clients clients
Keeps-refl clients = record {
  more = omega arith;
  same = λ p h. refl;
  shared = λ p e. e;
  clean = λ h. h;
}

Keeps-trans : (a b c : Clients) → Keeps a b → Keeps b c → Keeps a c
Keeps-trans a b c first second = record {
  more = omega (arith, first.more, second.more);
  same = λ p h. second.same p (omega (arith, h, first.more)) ∙ first.same p h;
  shared = λ p e. second.shared p (first.shared p e);
  clean = λ h. second.clean (first.clean h);
}

-- A new object stands beside those that there are.
old_object :
    (c : HostClient) (clients : Clients) (p : ℕ)
    → p < clients.next
    → (allocate c clients).1.object p ≡ clients.object p
unfolding allocate
old_object c clients p h = ground (arith, h)

new_object : (c : HostClient) (clients : Clients) → (allocate c clients).1.object clients.next ≡ c
unfolding allocate
new_object c clients = ground arith

allocate-Keeps : (c : HostClient) (clients : Clients) → Keeps clients (allocate c clients).1
unfolding allocate
allocate-Keeps c clients = record {
  more = omega arith;
  same = old_object c clients;
  shared = λ p e. e;
  clean = λ h. record { at = λ p e. still p (h.at p e) };
}
  where
    still :
        (p : ℕ)
        → (p < clients.next) × IsUnleased (clients.object p)
        → (p < suc clients.next) × IsUnleased ((allocate c clients).1.object p)
    still p (there, unleased) =
        (omega (arith, there), subst IsUnleased (sym (old_object c clients p there)) unleased)

derived-Keeps :
    (base : ℕ) (attempt : ExecutionAttempt) (clients : Clients)
    → Keeps clients (derived base attempt clients).1
unfolding derived
derived-Keeps base attempt clients =
    allocate-Keeps (for_execution (clients.object base) attempt) clients

built-Keeps :
    (c : HostClient) (clients : Clients)
    → IsUnleased c
    → clients.shared ≡ none
    → Keeps clients (built (ok c) clients).1
unfolding built allocate
built-Keeps c clients unleased nothing = record {
  more = omega arith;
  same = old_object c clients;
  shared = λ p e. absurd (never p (sym nothing ∙ e));
  clean = λ h. record { at = λ p e. there p e };
}
  where
    never : (p : ℕ) → ◌≡◌ {A = Option ℕ} none (some p) → ⊥
    never p e = cc e

    there :
        (p : ℕ)
        → ◌≡◌ {A = Option ℕ} (some clients.next) (some p)
        → (p < suc clients.next) × IsUnleased ((allocate c clients).1.object p)
    there p e = at_next p (cc e)
      where
        at_next :
            (p : ℕ)
            → clients.next ≡ p
            → (p < suc clients.next) × IsUnleased ((allocate c clients).1.object p)
        at_next p same = (
          omega (arith, same),
          subst (λ q. IsUnleased ((allocate c clients).1.object q)) same
              (subst IsUnleased (sym (new_object c clients)) unleased),
        )

client-Keeps :
    (url token : Option String) (clients : Clients) → Keeps clients (client url token clients).1
unfolding client
client-Keeps url token clients = elim (opened url token clients clients.shared) [
  | unconfigured same nothing missing ↦ by_what_it_is _ same (Keeps-refl clients)
  | existing p same there ↦ by_what_it_is _ same (Keeps-refl clients)
  | new c ready same nothing ↦
      by_what_it_is _ same
        (built-Keeps c clients (new-IsUnleased url (token_or_none token) c ready) nothing)
]
  where
    by_what_it_is :
        (outcome : Served ℕ × Clients)
        → client url token clients ≡ outcome
        → Keeps clients outcome.1
        → Keeps clients (client url token clients).1
    by_what_it_is outcome same h =
        subst (λ (o : Served ℕ × Clients). Keeps clients o.1) (sym same) h

bound-Keeps :
    {W A : Type 0} (attempt : ExecutionAttempt) (outcome : Served ℕ × Clients)
    (body : HostClient → W → Served A × W) (w : W)
    → Keeps outcome.1 (with_bound_client attempt outcome body w).1.clients
unfolding with_bound_client
bound-Keeps attempt (answered base, clients) body w = derived-Keeps base attempt clients
bound-Keeps attempt (refused x, clients) body w = Keeps-refl clients
bound-Keeps attempt (failed e, clients) body w = Keeps-refl clients

opened-Keeps :
    {W A : Type 0} (attempt : ExecutionAttempt) (posted : Posted)
    (body : HostClient → W → Served A × W) (app : App W)
    → Keeps app.clients
        (with_bound_client attempt
          (client posted.host_url posted.token app.clients)
          body
          app.world).1.clients
opened-Keeps attempt posted body app =
    Keeps-trans _ _ _ (client-Keeps posted.host_url posted.token app.clients)
      (bound-Keeps attempt (client posted.host_url posted.token app.clients) body app.world)

module _ (http : HttpClient) (clock : http.World → ℕ × http.World) (dumps : Event → String)
    (fuel : ℕ) where
  execute-Keeps :
      (posted : Posted) (attempt : Served ExecutionAttempt) (app : App http.World)
      → Keeps app.clients (with_attempt http clock posted fuel attempt app).1.clients
  unfolding with_attempt
  execute-Keeps posted (answered attempt) app =
      opened-Keeps attempt posted (run_over http clock posted fuel) app
  execute-Keeps posted (refused x) app = Keeps-refl app.clients
  execute-Keeps posted (failed e) app = Keeps-refl app.clients

  stream-Keeps :
      (posted : Posted) (attempt : Served ExecutionAttempt) (app : App http.World)
      → Keeps app.clients (stream_attempt http clock dumps posted fuel attempt app).1.clients
  unfolding stream_attempt
  stream-Keeps posted (answered attempt) app =
      opened-Keeps attempt posted (stream_over http clock dumps posted fuel) app
  stream-Keeps posted (refused x) app = Keeps-refl app.clients
  stream-Keeps posted (failed e) app = Keeps-refl app.clients

  execute_admitted-Keeps :
      (posted : Posted) (token : Served (Unit {0})) (app : App http.World)
      → Keeps app.clients (admitted http clock posted fuel token app).1.clients
  unfolding admitted
  execute_admitted-Keeps posted (answered _) app =
      execute-Keeps posted (execution_attempt posted.body) app
  execute_admitted-Keeps posted (refused x) app = Keeps-refl app.clients
  execute_admitted-Keeps posted (failed e) app = Keeps-refl app.clients

  stream_admitted-Keeps :
      (posted : Posted) (token : Served (Unit {0})) (app : App http.World)
      → Keeps app.clients (stream_admitted http clock dumps posted fuel token app).1.clients
  unfolding stream_admitted
  stream_admitted-Keeps posted (answered _) app =
      stream-Keeps posted (execution_attempt posted.body) app
  stream_admitted-Keeps posted (refused x) app = Keeps-refl app.clients
  stream_admitted-Keeps posted (failed e) app = Keeps-refl app.clients

  serve-Keeps :
      (kind : Endpoint) (posted : Posted) (app : App http.World)
      → Keeps app.clients (serve http clock dumps fuel kind posted app).clients
  unfolding serve execute_run execute_run_stream
  serve-Keeps execute posted app =
      execute_admitted-Keeps posted (require_internal_token posted.token posted.authorization) app
  serve-Keeps stream posted app =
      stream_admitted-Keeps posted (require_internal_token posted.token posted.authorization) app

  -- Whatever execute requests the application serves, with whatever leases, no request writes to a
  -- client object that there was before, and the client that they share stays the same object. If at
  -- first there is no shared client, or one that sends no lease header, then one that there is
  -- afterwards sends none.
  pub serve_all-Keeps :
      (requests : List (Endpoint × Posted)) (app : App http.World)
      → Keeps app.clients (serve_all http clock dumps fuel requests app).clients
  unfolding serve_all
  serve_all-Keeps [] app = Keeps-refl app.clients
  serve_all-Keeps ((kind, posted) ∷ requests) app =
      Keeps-trans _ _ _ (serve-Keeps kind posted app)
        (serve_all-Keeps requests (serve http clock dumps fuel kind posted app))
