-- ===== src/HostClient/Wire.antt =====
-- slimx_agent/host_client.py: what its wire shapes carry, read back.
use slimx_agent.Prelude.{
  ℕ, zero, suc, ◌≤◌, ◌<◌, String, ◌==◌, ◌≡◌, refl, ◌≢◌, ◌↔◌, true, Option, none, some, List, [],
  ◌∷◌, if◌then◌else◌, arith, eq_iff, lookup, clip, ap,
}
use Prim.Native.String.{count}
use text.Mathlib.TextLemmas.{length-append, length-cons}
use slimx_agent.Json.{Json, bool, str, obj, Fields, get, entries, fields_of}
use slimx_agent.Json.Text.{show_int}
use slimx_agent.Store.{Payload, Patch, unset, put}
use slimx_agent.Outcomes.{ok}
use slimx_agent.HostClient.Errors.{bounded_detail}
use slimx_agent.HostClient.Attempt.{
  ExecutionAttempt, headers, lease_job_id_header, lease_token_header, lease_generation_header,
}
use slimx_agent.HostClient.Profile.{RunProfile, profile_wire, profile_from_wire}
use slimx_agent.HostClient.Transport.{HostClient, Headers, set_header, merge_headers, for_execution}
use slimx_agent.HostClient.Operations.{state_body}

-- How a host reads a write: a field whose flag is set is replaced, and `null` clears it.
abbrev text_of : Json → Option String
text_of (str s) = some s
text_of _ = none

abbrev payload_of : Json → Option Payload
payload_of (obj fs) = some (entries fs)
payload_of _ = none

abbrev flagged : {A : Type 0} → (Json → Option A) → Json → Json → Patch A
flagged decode (bool true) v = put (decode v)
flagged decode _ v = unset

abbrev pub error_of : Fields → Patch String
error_of body = flagged text_of (get "error_set" body) (get "error" body)

abbrev pub refs_of : Fields → Patch Payload
refs_of body = flagged payload_of (get "output_refs_set" body) (get "output_refs" body)

entries-fields_of : (l : List (String × Json)) → entries (fields_of l) ≡ l
entries-fields_of [] = refl
entries-fields_of ((k, v) ∷ l) = ap (λ (m : List (String × Json)). (k, v) ∷ m) (entries-fields_of l)

-- The body of a state write carries the status, and each field as it was given: left alone, cleared,
-- or replaced by its value.
pub state_body_roundtrip :
    (status : String) (error : Patch String) (refs : Patch Payload)
    → (get "status" (state_body status error refs) ≡ str status)
      × (error_of (state_body status error refs) ≡ error)
      × (refs_of (state_body status error refs) ≡ refs)
unfolding state_body get
state_body_roundtrip status unset unset = (refl, refl, refl)
state_body_roundtrip status unset (put none) = (refl, refl, refl)
state_body_roundtrip status unset (put (some p)) =
    (refl, refl, ap (λ (p : Payload). put (some p)) (entries-fields_of p))
state_body_roundtrip status (put none) unset = (refl, refl, refl)
state_body_roundtrip status (put none) (put none) = (refl, refl, refl)
state_body_roundtrip status (put none) (put (some p)) =
    (refl, refl, ap (λ (p : Payload). put (some p)) (entries-fields_of p))
state_body_roundtrip status (put (some e)) unset = (refl, refl, refl)
state_body_roundtrip status (put (some e)) (put none) = (refl, refl, refl)
state_body_roundtrip status (put (some e)) (put (some p)) =
    (refl, refl, ap (λ (p : Payload). put (some p)) (entries-fields_of p))

-- A profile survives its wire shape exactly when its provider and its model are not empty.
profile_roundtrip :
    (p : RunProfile)
    → (profile_from_wire (profile_wire p) ≡ ok p) ↔ ((p.provider ≢ "") × (p.model ≢ ""))
unfolding profile_from_wire profile_wire get
profile_roundtrip p = at p.base_url p refl
  where
    at :
        (url : Option String) (p : RunProfile)
        → p.base_url ≡ url
        → (profile_from_wire (profile_wire p) ≡ ok p) ↔ ((p.provider ≢ "") × (p.model ≢ ""))
    at none p e = ground (arith, eq_iff p.provider "", eq_iff p.model "")
    at (some url) p e = ground (arith, eq_iff p.provider "", eq_iff p.model "")

lookup-set_header :
    (k j v : String) (l : Headers)
    → lookup j (set_header k v l) ≡ (if k == j then some v else lookup j l)
unfolding lookup set_header
lookup-set_header k j v [] = refl
lookup-set_header k j v ((i, w) ∷ l) =
    ground (arith, eq_iff k j, eq_iff i k, eq_iff i j, lookup-set_header k j v l)

-- A client bound to an attempt sends the attempt's three lease headers, and otherwise what the base
-- client sends.
pub for_execution_headers :
    (client : HostClient) (attempt : ExecutionAttempt) (name : String)
    → lookup name (for_execution client attempt).request_headers ≡ (
        if lease_generation_header == name
        then some (show_int attempt.generation)
        else if lease_token_header == name
        then some attempt.token
        else if lease_job_id_header == name
        then some attempt.job_id
        else lookup name client.request_headers)
unfolding for_execution merge_headers headers
for_execution_headers client attempt name = simp lookup-set_header

count-clip : (n : ℕ) (s : String) → count (clip n s) ≤ n
unfolding clip
count-clip zero s = omega arith
count-clip (suc n) String.[] = omega arith
count-clip (suc n) (String.◌∷◌ c s) = omega (arith, count-clip n s, length-cons c (clip n s))

-- A detail is bounded, and one within the bound is whole.
pub bounded_detail_lem :
    (text : String) (limit : ℕ)
    → 0 < limit
    → (count (bounded_detail text limit) ≤ limit)
      × (count text ≤ limit → bounded_detail text limit ≡ text)
unfolding bounded_detail
bounded_detail_lem text zero h = elim h [ ]
bounded_detail_lem text (suc n) h =
    ground (arith, length-append (clip n text) "…", count-clip n text, ellipsis)
  where
    ellipsis : count "…" ≡ 1
    ellipsis = refl
