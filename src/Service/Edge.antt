-- ===== src/Service/Edge.antt =====
-- slimx_agent/service.py: what the service answers to an exception of a drive.
use slimx_agent.Prelude.{
  ℕ, ◌≤◌, ◌<◌, String, ◌≡◌, refl, sym, ap, subst, ◌⊎◌, inl, inr, ◌&&◌, Option, none, some,
  if◌then◌else◌, leb, ltb, arith,
}
use Prim.Native.String.{count}
use slimx_agent.Outcomes.{
  HostFailure, Raise, host_error, host_unavailable, host_protocol_error, step_outcome_unknown,
  running_step_not_permitted, text_of,
}
use slimx_agent.HostClient.Errors.{bounded_detail, max_detail_chars}
use slimx_agent.HostClient.Wire.{bounded_detail_lem}
use slimx_agent.Service.Auth.{HttpException}

-- `_host_http_error`: a host's own 4xx is kept. The text of the three host errors is the same.
unfoldable pub host_http_error : HostFailure → HttpException
host_http_error f = record {
  status_code = if leb 400 f.status_code && ltb f.status_code 500 then f.status_code else 502;
  detail = bounded_detail (text_of (host_error f)) max_detail_chars;
}

-- `_outcome_unknown_http_error`, by the cause
unfoldable pub outcome_unknown_http_error : Raise → Option HostFailure → HttpException
unfolding host_http_error
outcome_unknown_http_error e (some f) = host_http_error f
outcome_unknown_http_error e none = record {
  status_code = 502;
  detail = bounded_detail (text_of e) max_detail_chars;
}

-- `_not_permitted_http_error`
unfoldable pub not_permitted_http_error : Raise → HttpException
not_permitted_http_error e = record {
  status_code = 409;
  detail = bounded_detail (text_of e) max_detail_chars;
}

-- The `except` clauses of an execute endpoint; `none` is an exception that they let through.
unfoldable pub edge_error : Raise → Option HttpException
unfolding host_http_error outcome_unknown_http_error not_permitted_http_error
edge_error (host_error f) = some (host_http_error f)
edge_error (host_unavailable f) = some (host_http_error f)
edge_error (host_protocol_error f) = some (host_http_error f)
edge_error (step_outcome_unknown text cause) =
    some (outcome_unknown_http_error (step_outcome_unknown text cause) cause)
edge_error (running_step_not_permitted step_id reason) =
    some (not_permitted_http_error (running_step_not_permitted step_id reason))
edge_error e = none

-- A refusal of the service: a client error, or a bad gateway, with a bounded detail.
pub record IsRefusal (x : HttpException) : Type 0 where
  pub status : (400 ≤ x.status_code) × (x.status_code < 500) ⊎ (x.status_code ≡ 502)
  pub detail : count x.detail ≤ 500

host_http_error-IsRefusal : (f : HostFailure) → IsRefusal (host_http_error f)
unfolding host_http_error
host_http_error-IsRefusal f = record {
  status = ground arith;
  detail = (bounded_detail_lem (text_of (host_error f)) 500 (omega arith)).0;
}

bounded-IsRefusal :
    (status : ℕ) (text : String)
    → (400 ≤ status) × (status < 500) ⊎ (status ≡ 502)
    → IsRefusal (record { status_code = status; detail = bounded_detail text 500 })
bounded-IsRefusal status text h = record {
  status = h;
  detail = (bounded_detail_lem text 500 (omega arith)).0;
}

outcome_unknown-IsRefusal :
    (e : Raise) (cause : Option HostFailure) → IsRefusal (outcome_unknown_http_error e cause)
unfolding outcome_unknown_http_error
outcome_unknown-IsRefusal e none = bounded-IsRefusal 502 (text_of e) (inr refl)
outcome_unknown-IsRefusal e (some f) = host_http_error-IsRefusal f

some_inj : {x y : HttpException} → some x ≡ some y → x ≡ y
some_inj e = cc

pub edge_error-IsRefusal : (e : Raise) (x : HttpException) → edge_error e ≡ some x → IsRefusal x
unfolding edge_error
edge_error-IsRefusal (host_error f) x same =
    subst IsRefusal (some_inj same) (host_http_error-IsRefusal f)
edge_error-IsRefusal (host_unavailable f) x same =
    subst IsRefusal (some_inj same) (host_http_error-IsRefusal f)
edge_error-IsRefusal (host_protocol_error f) x same =
    subst IsRefusal (some_inj same) (host_http_error-IsRefusal f)
edge_error-IsRefusal (step_outcome_unknown text cause) x same =
    subst IsRefusal (some_inj same)
      (outcome_unknown-IsRefusal (step_outcome_unknown text cause) cause)
edge_error-IsRefusal (running_step_not_permitted step_id reason) x same =
    subst IsRefusal (some_inj same) (
      unfold not_permitted_http_error in
      bounded-IsRefusal 409 (text_of (running_step_not_permitted step_id reason))
        (inl (omega arith)))
edge_error-IsRefusal e x same = cc

-- A host's own 4xx, such as a stale lease's 409, is the service's answer, whether a callback raised
-- it or a step's invocation was refused with it; any other failure of the host is a 502.
edge_error-host :
    (f : HostFailure) (text : String)
    → (edge_error (host_error f) ≡ edge_error (step_outcome_unknown text (some f)))
      × ((x : HttpException)
          → edge_error (host_error f) ≡ some x
          → x.status_code
            ≡ (if leb 400 f.status_code && ltb f.status_code 500 then f.status_code else 502))
unfolding edge_error host_http_error
edge_error-host f text = (refl, λ x e. ap (λ (y : HttpException). y.status_code) (sym (some_inj e)))
