-- ===== src/HostClient/Once.antt =====
-- slimx_agent/host_client.py: what it means that a call sends one request, and the rules for it.
use slimx_agent.Outcomes.{
  raised_inj, Raise, host_error, host_unavailable, host_protocol_error, Result, ok, raised,
}
use slimx_agent.Prelude.{
  String, ◌≡◌, refl, ◌⊎◌, inl, inr, Bool, if◌then◌else◌, eqb, ◌||◌, true, false, Option, none, some,
  ap, subst, ◌∙◌,
}
use slimx_agent.Json.{Json, null}
use slimx_agent.HostClient.Errors.{new_protocol_error, new_host_error, new_host_unavailable}
use slimx_agent.HostClient.Io.{Io, lift, ◌>>=◌}
use slimx_agent.HostClient.Transport.{
  HttpClient, Headers, Request, Answer, response, transport_error, broke, Reply, Response,
  some_headers, send, read_answer, read_response, body, not_found, error_detail,
}

abbrev pub IsHostError : Raise → Type 0
IsHostError (host_error _) = Unit
IsHostError (host_unavailable _) = Unit
IsHostError (host_protocol_error _) = Unit
IsHostError _ = ⊥

-- What a result raises is a host error.
pub record RaisesHost {A : Type 0} (r : Result A) : Type 0 where
  pub error : (e : Raise) → r ≡ raised e → IsHostError e

pub ok-Host : {A : Type 0} (a : A) → RaisesHost (ok a)
ok-Host a = record { error = λ e same. cc }

pub raised-Host : {A : Type 0} (e : Raise) → IsHostError e → RaisesHost {A = A} (raised e)
raised-Host {A} e h = record { error = λ e' same. subst IsHostError (raised_inj {A = A} same) h }

pub RaisesHost-if :
    {A : Type 0} (b : Bool) {x y : Result A}
    → RaisesHost x
    → RaisesHost y
    → RaisesHost (if b then x else y)
RaisesHost-if true p q = p
RaisesHost-if false p q = q

pub refused-Host :
    {A : Type 0} (detail : String) → RaisesHost {A = A} (raised (new_protocol_error detail))
unfolding new_protocol_error
refused-Host detail = raised-Host _ tt

read_response-Host :
    (http : HttpClient) (allow_404 : Bool) (r : Response)
    → RaisesHost (read_response http allow_404 r)
unfolding read_response new_host_error new_protocol_error
read_response-Host http allow_404 r = RaisesHost-if _ (ok-Host not_found) (
    RaisesHost-if _ (raised-Host (new_host_error r.status_code (error_detail http r)) tt)
      (RaisesHost-if (eqb r.status_code 204 || r.is_empty) (ok-Host (body null)) (parsed r.json)))
  where
    parsed :
        (o : Option Json)
        → RaisesHost (elim o as (λ _. Result Reply) [
          | none ↦ raised (new_protocol_error "the response body is not JSON")
          | some v ↦ ok (body v)
        ])
    parsed none = refused-Host "the response body is not JSON"
    parsed (some v) = ok-Host (body v)

module _ (http : HttpClient) (headers : Headers) where
  -- A result that came of one answer: what it raises is a host error, or what the HTTP client raised.
  abbrev pub FromAnswer : {A : Type 0} → Answer → Result A → Type 0
  FromAnswer answer (ok a) = Unit
  FromAnswer answer (raised e) = IsHostError e ⊎ (answer ≡ broke e)

  -- No request is sent; a refusal is a host error.
  pub record Quiet {A : Type 0} (m : Io http.World A) : Type 0 where
    pub still : (w : http.World) → (m w).1 ≡ w
    pub raises : (w : http.World) → RaisesHost (m w).0

  -- One request was sent, with these headers, and it alone changed the world.
  pub record Sent {A : Type 0} (w : http.World) (out : Result A × http.World) : Type 0 where
    pub request : Request
    pub bound : request.headers ≡ some_headers headers
    pub world : out.1 ≡ (http.request request w).1
    pub raises : FromAnswer (http.request request w).0 out.0

  -- Nothing was sent, and a host error says why.
  pub record Unsent {A : Type 0} (w : http.World) (out : Result A × http.World) : Type 0 where
    pub error : Raise
    pub refused : out ≡ (raised error, w)
    pub is_host_error : IsHostError error

  -- At most one request is sent, and none only where the call is refused before it.
  pub record Once {A : Type 0} (m : Io http.World A) : Type 0 where
    pub at : (w : http.World) → Unsent w (m w) ⊎ Sent w (m w)

  host-FromAnswer :
      {A : Type 0} (answer : Answer) (r : Result A) → RaisesHost r → FromAnswer answer r
  host-FromAnswer answer (ok a) h = tt
  host-FromAnswer answer (raised e) h = inl (h.error e refl)

  pub Quiet-lift : {A : Type 0} (r : Result A) → RaisesHost r → Quiet (lift r)
  Quiet-lift r h = record { still = λ w. refl; raises = λ w. h }

  pub send-Once :
      (r : Request) (allow_404 : Bool)
      → r.headers ≡ some_headers headers
      → Once (send http r allow_404)
  unfolding send read_answer new_host_unavailable
  send-Once r allow_404 bound = record {
    at = λ w. inr (record {
      request = r;
      bound = bound;
      world = refl;
      raises = read-FromAnswer allow_404 (http.request r w).0;
    });
  }
    where
      read-FromAnswer :
          (allow_404 : Bool) (answer : Answer)
          → FromAnswer answer (read_answer http allow_404 answer)
      read-FromAnswer allow_404 (response r) =
          host-FromAnswer _ _ (read_response-Host http allow_404 r)
      read-FromAnswer allow_404 (transport_error name text) = inl tt
      read-FromAnswer allow_404 (broke e) = inr refl

  module _ {A B : Type 0} (m : Io http.World A) (f : A → Io http.World B) where
    abbrev next : Result A × http.World → Result B × http.World
    next out = elim out.0 [ ok a ↦ f a out.1 | raised e ↦ (raised e, out.1) ]

    pub Quiet-bind : Quiet m → ((a : A) → Quiet (f a)) → Quiet (m >>= f)
    unfolding ◌>>=◌
    Quiet-bind q k = record {
      still = λ w. still (m w) ∙ q.still w;
      raises = λ w. raises (m w) (q.raises w);
    }
      where
        still : (out : Result A × http.World) → (next out).1 ≡ out.1
        still (ok a, w) = (k a).still w
        still (raised e, w) = refl

        raises : (out : Result A × http.World) → RaisesHost out.0 → RaisesHost (next out).0
        raises (ok a, w) h = (k a).raises w
        raises (raised e, w) h = raised-Host e (h.error e refl)

    pub Quiet-Once : Quiet m → ((a : A) → Once (f a)) → Once (m >>= f)
    unfolding ◌>>=◌
    Quiet-Once q k = record { at = λ w. go w (m w) (q.still w) (q.raises w) }
      where
        go :
            (w : http.World) (out : Result A × http.World)
            → out.1 ≡ w
            → RaisesHost out.0
            → Unsent w (next out) ⊎ Sent w (next out)
        go w (ok a, w') same h = subst (λ w. Unsent w (f a w') ⊎ Sent w (f a w')) same ((k a).at w')
        go w (raised e, w') same h = inl (record {
          error = e;
          refused = ap (λ w. (raised e, w)) same;
          is_host_error = h.error e refl;
        })

    pub Once-bind : Once m → ((a : A) → Quiet (f a)) → Once (m >>= f)
    unfolding ◌>>=◌
    Once-bind o k = record { at = λ w. go w (m w) (o.at w) }
      where
        go :
            (w : http.World) (out : Result A × http.World)
            → Unsent w out ⊎ Sent w out
            → Unsent w (next out) ⊎ Sent w (next out)
        go w (ok a, w') (inl u) = cc (u.refused)
        go w (raised e, w') (inl u) =
            inl (record {
              error = u.error;
              refused = cc (u.refused);
              is_host_error = u.is_host_error;
            })
        go w (ok a, w') (inr s) = inr (record {
          request = s.request;
          bound = s.bound;
          world = (k a).still w' ∙ s.world;
          raises = host-FromAnswer _ (f a w').0 ((k a).raises w');
        })
        go w (raised e, w') (inr s) =
            inr
              (record { request = s.request; bound = s.bound; world = s.world; raises = s.raises })
