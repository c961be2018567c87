-- ===== src/Service/Refusals.antt =====
-- slimx_agent/service.py: when the execute endpoint refuses, and with what.
use slimx_agent.Prelude.{
  ℕ, String, ◌≡◌, refl, sym, subst, ◌≢◌, inl, inr, Option, none, some, arith, Option-cases,
}
use slimx_agent.Store.{Run}
use slimx_agent.Outcomes.{Raise, Result, ok, raised}
use slimx_agent.Tools.{ToolRegistry}
use slimx_agent.Engine.Host.{Handler}
use slimx_agent.Engine.Drive.{Ended, finished, exhausted}
use slimx_agent.HostClient.Attempt.{ExecutionAttempt}
use slimx_agent.HostClient.Profile.{RunProfile}
use slimx_agent.HostClient.Transport.{HttpClient, HostClient}
use slimx_agent.Service.Auth.{
  HttpException, Served, answered, refused, failed, require_internal_token, attempt_of,
  execution_attempt,
}
use slimx_agent.Service.Edge.{edge_error, edge_error-IsRefusal, IsRefusal}
use slimx_agent.Service.Client.{
  Clients, client, opened, unconfigured as no_url, existing, new, built, NoUrl, no_host_url,
}
use slimx_agent.Service.App.{Posted, App, with_bound_client}
use slimx_agent.Service.Execute.{
  run_over, caught, finish, drive_run, run_found, with_attempt, admitted, execute_run, not_found,
}

-- Whatever is refused, the refusal has the property `P`.
pub record Refuses (P : HttpException → Type 0) {A : Type 0} (s : Served A) : Type 0 where
  pub at : (x : HttpException) → s ≡ refused x → P x

module _ (P : HttpException → Type 0) {A : Type 0} where
  Refuses-refused : (x : HttpException) → P x → Refuses P {A = A} (refused x)
  Refuses-refused x h = record { at = λ y e. subst P (refused_inj e) h }
    where
      refused_inj : {y : HttpException} → ◌≡◌ {A = Served A} (refused x) (refused y) → x ≡ y
      refused_inj e = cc

  Refuses-answered : (a : A) → Refuses P (answered a)
  Refuses-answered a = record { at = λ x e. cc }

  Refuses-failed : (e : Raise) → Refuses P {A = A} (failed e)
  Refuses-failed e = record { at = λ x same. never x same }
    where
      never : (x : HttpException) → ◌≡◌ {A = Served A} (failed e) (refused x) → P x
      never x same = cc

-- What is refused, is refused with a client error or a bad gateway.
abbrev RefusesWell : {A : Type 0} → Served A → Type 0
RefusesWell s = Refuses IsRefusal s

RefusesWell-refused :
    {A : Type 0} (x : HttpException) → IsRefusal x → RefusesWell {A = A} (refused x)
RefusesWell-refused x h = Refuses-refused IsRefusal x h

RefusesWell-answered : {A : Type 0} (a : A) → RefusesWell (answered a)
RefusesWell-answered a = Refuses-answered IsRefusal a

RefusesWell-failed : {A : Type 0} (e : Raise) → RefusesWell {A = A} (failed e)
RefusesWell-failed e = Refuses-failed IsRefusal e

-- Every refusal of a request to an application with some clients: a client error or a bad gateway, or
-- the 503 of an application that has no client and no host address to build one with.
pub data IsAnswer (posted : Posted) (clients : Clients) (x : HttpException) : Type 0 where
  refusal : IsRefusal x → IsAnswer posted clients x
  unconfigured :
      x ≡ no_host_url → clients.shared ≡ none → NoUrl posted.host_url → IsAnswer posted clients x

caught-edge :
    (A : Type 0) (e : Raise) (x : HttpException)
    → caught {A = A} e ≡ refused x
    → edge_error e ≡ some x
unfolding caught
caught-edge A e x same = elim (Option-cases (edge_error e)) [
  | inl through ↦ cc (rw (through, caught) at same)
  | inr (y, is) ↦ cc (rw (is, caught) at same, is)
]

caught-RefusesWell : (A : Type 0) (e : Raise) → RefusesWell (caught {A = A} e)
caught-RefusesWell A e = record { at = λ x same. edge_error-IsRefusal e x (caught-edge A e x same) }

unauthorized :
    IsRefusal (record { status_code = 401; detail = "Missing or invalid internal service token" })
unauthorized = record { status = inl (omega arith); detail = omega arith }

token-RefusesWell :
    (env authorization : Option String) → RefusesWell (require_internal_token env authorization)
unfolding require_internal_token
token-RefusesWell env authorization = record {
  at = λ x e. subst IsRefusal (only_401 env authorization x e) unauthorized;
}
  where
    only_401 :
        (env authorization : Option String) (x : HttpException)
        → require_internal_token env authorization ≡ refused x
        → record { status_code = 401; detail = "Missing or invalid internal service token" } ≡ x
    only_401 env authorization x e = ground arith

leaseless : IsRefusal (record { status_code = 422; detail = "Agent execution lease is required" })
leaseless = record { status = inl (omega arith); detail = omega arith }

attempt-RefusesWell : (j t : Option String) (g : Option ℕ) → RefusesWell (attempt_of j t g)
attempt-RefusesWell (some j) (some t) (some g) = RefusesWell-answered _
attempt-RefusesWell none t g = RefusesWell-refused _ leaseless
attempt-RefusesWell (some j) none g = RefusesWell-refused _ leaseless
attempt-RefusesWell (some j) (some t) none = RefusesWell-refused _ leaseless

module _ (http : HttpClient) (clock : http.World → ℕ × http.World) where
  finish-RefusesWell : (r : Result (Ended × Run)) → RefusesWell (finish http clock r)
  finish-RefusesWell (ok (finished, run)) = RefusesWell-answered _
  finish-RefusesWell (ok (exhausted, run)) = RefusesWell-answered _
  finish-RefusesWell (raised e) = caught-RefusesWell _ e

  drive_run-RefusesWell :
      (client : HostClient) (profile : RunProfile) (run : Run) (fuel : ℕ)
      (built : Result (ToolRegistry (Handler http.World))) (w : http.World)
      → RefusesWell (drive_run http clock client profile run fuel built w).0
  unfolding drive_run
  drive_run-RefusesWell client profile run fuel (raised e) w = RefusesWell-failed e
  drive_run-RefusesWell client profile run fuel (ok registry) w = finish-RefusesWell _

  run_found-RefusesWell :
      (client : HostClient) (profile : RunProfile) (fuel : ℕ) (r : Result (Option Run))
      (w : http.World)
      → RefusesWell (run_found http clock client profile fuel r w).0
  unfolding run_found
  run_found-RefusesWell client profile fuel (raised e) w = caught-RefusesWell _ e
  run_found-RefusesWell client profile fuel (ok none) w =
      RefusesWell-refused not_found (record { status = inl (omega arith); detail = omega arith })
  run_found-RefusesWell client profile fuel (ok (some run)) w =
      drive_run-RefusesWell client profile run fuel _ w

  over-RefusesWell :
      (posted : Posted) (fuel : ℕ) (c : HostClient) (w : http.World)
      → RefusesWell (run_over http clock posted fuel c w).0
  over-RefusesWell posted fuel c w = run_found-RefusesWell c _ fuel _ _

  -- The use of the client, by what `client()` comes to.
  bound-Refuses :
      (posted : Posted) (fuel : ℕ) (attempt : ExecutionAttempt) (app : App http.World)
      → Refuses
          (IsAnswer posted app.clients)
          (with_bound_client attempt
            (client posted.host_url posted.token app.clients)
            (run_over http clock posted fuel)
            app.world).0
  unfolding client with_bound_client
  bound-Refuses posted fuel attempt app =
      elim (opened posted.host_url posted.token app.clients app.clients.shared) [
        | no_url same nothing missing ↦
            by_what_it_is _ same (Refuses-refused _ no_host_url (unconfigured refl nothing missing))
        | existing p same there ↦ by_what_it_is _ same (used p app.clients)
        | new c ready same nothing ↦ by_what_it_is _ same (unfold built in used _ _)
      ]
    where
      used :
          (base : ℕ) (clients : Clients)
          → Refuses
              (IsAnswer posted app.clients)
              (with_bound_client attempt
                (answered base, clients)
                (run_over http clock posted fuel)
                app.world).0
      used base clients = record {
        at = λ x e. refusal ((over-RefusesWell posted fuel _ app.world).at x e);
      }

      by_what_it_is :
          (outcome : Served ℕ × Clients)
          → client posted.host_url posted.token app.clients ≡ outcome
          → Refuses
              (IsAnswer posted app.clients)
              (with_bound_client attempt outcome (run_over http clock posted fuel) app.world).0
          → Refuses
              (IsAnswer posted app.clients)
              (with_bound_client attempt
                (client posted.host_url posted.token app.clients)
                (run_over http clock posted fuel)
                app.world).0
      by_what_it_is outcome same h =
          subst
            (λ (o : Served ℕ × Clients).
              Refuses (IsAnswer posted app.clients)
                (with_bound_client attempt o (run_over http clock posted fuel) app.world).0)
            (sym same) h

  with_attempt-Refuses :
      (posted : Posted) (fuel : ℕ) (attempt : Served ExecutionAttempt) (app : App http.World)
      → RefusesWell attempt
      → Refuses (IsAnswer posted app.clients) (with_attempt http clock posted fuel attempt app).0
  unfolding with_attempt
  with_attempt-Refuses posted fuel (refused x) app h = Refuses-refused _ x (refusal (h.at x refl))
  with_attempt-Refuses posted fuel (failed e) app h = Refuses-failed _ e
  with_attempt-Refuses posted fuel (answered attempt) app h = bound-Refuses posted fuel attempt app

  admitted-Refuses :
      (posted : Posted) (fuel : ℕ) (token : Served (Unit {0})) (app : App http.World)
      → RefusesWell token
      → Refuses (IsAnswer posted app.clients) (admitted http clock posted fuel token app).0
  unfolding admitted execution_attempt
  admitted-Refuses posted fuel (refused x) app h = Refuses-refused _ x (refusal (h.at x refl))
  admitted-Refuses posted fuel (failed e) app h = Refuses-failed _ e
  admitted-Refuses posted fuel (answered _) app h = with_attempt-Refuses posted fuel _ app (
      attempt-RefusesWell posted.body.lease_job_id posted.body.lease_token
        posted.body.lease_generation)

  -- Every refusal of the endpoint is a client error or a 502, and its detail has at most 500
  -- characters, whatever the host answers and the run does; or it is the 503 of an application that
  -- has no client yet and finds no host address to build one with.
  pub execute_run-RefusesWell :
      (posted : Posted) (fuel : ℕ) (app : App http.World) (x : HttpException)
      → (execute_run http clock posted fuel app).0 ≡ refused x
      → IsAnswer posted app.clients x
  unfolding execute_run
  execute_run-RefusesWell posted fuel app x e =
      (admitted-Refuses posted fuel (require_internal_token posted.token posted.authorization) app
          (token-RefusesWell posted.token posted.authorization)).at
        x e

  attempt_closed :
      (posted : Posted) (fuel : ℕ) (attempt : Served ExecutionAttempt) (app : App http.World)
      → (with_attempt http clock posted fuel attempt app).1.world ≢ app.world
      → (a : ExecutionAttempt) × (attempt ≡ answered a)
  unfolding with_attempt
  attempt_closed posted fuel (answered a) app changed = (a, refl)
  attempt_closed posted fuel (refused x) app changed = absurd (changed refl)
  attempt_closed posted fuel (failed e) app changed = absurd (changed refl)

  token_closed :
      (posted : Posted) (fuel : ℕ) (token : Served (Unit {0})) (app : App http.World)
      → (admitted http clock posted fuel token app).1.world ≢ app.world
      → (token ≡ answered tt)
        × ((attempt : ExecutionAttempt) × (execution_attempt posted.body ≡ answered attempt))
  unfolding admitted
  token_closed posted fuel (answered _) app changed =
      (refl, attempt_closed posted fuel (execution_attempt posted.body) app changed)
  token_closed posted fuel (refused x) app changed = absurd (changed refl)
  token_closed posted fuel (failed e) app changed = absurd (changed refl)

  -- The endpoint leaves the host alone unless the request carries the configured token, if there is
  -- one, and a whole lease.
  pub execute_run-fails_closed :
      (posted : Posted) (fuel : ℕ) (app : App http.World)
      → (execute_run http clock posted fuel app).1.world ≢ app.world
      → (require_internal_token posted.token posted.authorization ≡ answered tt)
        × ((attempt : ExecutionAttempt) × (execution_attempt posted.body ≡ answered attempt))
  unfolding execute_run
  execute_run-fails_closed posted fuel app changed =
      token_closed posted fuel (require_internal_token posted.token posted.authorization) app
        changed
