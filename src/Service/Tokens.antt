-- ===== src/Service/Tokens.antt =====
-- slimx_agent/service.py: which authorization the service accepts, and which bodies carry a lease.
use slimx_agent.Prelude.{
  sym, ◌⊎◌, ℕ, String, ◌<>◌, ◌≡◌, refl, ◌↔◌, true, Option, none, some, List, [], ◌∷◌, arith, ◌++◌,
  ◌<◌, ◌≢◌, eq_iff, ap,
}
use Prim.Native.Char.{Char, code}
use text.Mathlib.TextEquality.{Char-path}
use slimx_agent.Json.{pos}
use slimx_agent.HostClient.Urls.{utf8, utf8_char}
use slimx_agent.HostClient.Segments.{code-lt}
use slimx_agent.Service.Auth.{
  compare_digest, token_matches, configured, require_internal_token, require_run_check_token,
  answered, refused, ProfileBody, validate_complete_lease, is_whole, attempt_of, execution_attempt,
}

digest_iff : (s t : List ℕ) → (compare_digest s t ≡ true) ↔ (s ≡ t)
unfolding compare_digest
digest_iff [] [] = ground arith
digest_iff [] (b ∷ t) = ground arith
digest_iff (a ∷ s) [] = ground arith
digest_iff (a ∷ s) (b ∷ t) = ground (arith, digest_iff s t)

-- UTF-8 is a prefix code.
utf8_char_inj :
    (c d : ℕ) (s t : List ℕ)
    → c < 1114112
    → d < 1114112
    → utf8_char c ++ s ≡ utf8_char d ++ t
    → (c ≡ d) × (s ≡ t)
unfolding utf8_char
utf8_char_inj c d s t hc hd e = ground arith

utf8-ne-nil : (c : Char) (s : String) → utf8 (String.◌∷◌ c s) ≢ []
unfolding utf8 utf8_char
utf8-ne-nil c s e = ground arith

utf8_inj : (s t : String) → utf8 s ≡ utf8 t → s ≡ t
unfolding utf8
utf8_inj String.[] String.[] e = refl
utf8_inj String.[] (String.◌∷◌ d t) e = absurd (utf8-ne-nil d t (sym e))
utf8_inj (String.◌∷◌ c s) String.[] e = absurd (utf8-ne-nil c s e)
utf8_inj (String.◌∷◌ c s) (String.◌∷◌ d t) e =
    let (first, rest) = utf8_char_inj (code c) (code d) _ _ (code-lt c) (code-lt d) e in
    cc (Char-path c d first, utf8_inj s t rest)

-- The header of the configured token is the only one that matches it.
token_matches_iff :
    (authorization : Option String) (token : String)
    → (token_matches authorization token ≡ true) ↔ (authorization ≡ some ("Bearer " <> token))
unfolding token_matches
token_matches_iff none token = ground arith
token_matches_iff (some a) token = (
  λ h.
      ap some
        (utf8_inj a ("Bearer " <> token) ((digest_iff (utf8 a) (utf8 ("Bearer " <> token))).0 h)),
  λ e. (digest_iff (utf8 a) (utf8 ("Bearer " <> token))).1 (ap utf8 (some_inj e)),
)
  where
    some_inj : {a b : String} → some a ≡ some b → a ≡ b
    some_inj e = cc

-- The loop endpoints let a request pass exactly when no token is configured or the request carries
-- it; the check runner only in the second case, with a token that is configured.
pub tokens_required :
    (env authorization : Option String)
    → ((require_internal_token env authorization ≡ answered tt)
        ↔ ((configured env ≡ "") ⊎ (authorization ≡ some ("Bearer " <> configured env))))
      × ((require_run_check_token env authorization ≡ answered tt)
          ↔ ((configured env ≢ "") × (authorization ≡ some ("Bearer " <> configured env))))
unfolding require_internal_token require_run_check_token
tokens_required env authorization =
    let (there, back) = token_matches_iff authorization (configured env) in
    (
      ground (arith, eq_iff (configured env) "", there, back),
      ground (arith, eq_iff (configured env) "", there, back),
    )

-- A body that is accepted carries a whole lease, which is the attempt's, or none of it, and is then
-- refused by 422.
execution_attempt_lem :
    (body : ProfileBody)
    → validate_complete_lease body ≡ true
    → ((job_id token : String) (generation : ℕ)
        → (execution_attempt body
            ≡ answered (record { job_id = job_id; token = token; generation = pos generation }))
          ↔ ((body.lease_job_id ≡ some job_id)
              × (body.lease_token ≡ some token)
              × (body.lease_generation ≡ some generation)))
      × ((body.lease_generation ≡ none) ↔ (
          execution_attempt body
          ≡ refused (record { status_code = 422; detail = "Agent execution lease is required" })))
unfolding validate_complete_lease execution_attempt
execution_attempt_lem body h = at body.lease_job_id body.lease_token body.lease_generation h
  where
    at :
        (j t : Option String) (g : Option ℕ)
        → is_whole j t g ≡ true
        → ((job_id token : String) (generation : ℕ)
            → (attempt_of j t g
                ≡ answered (record { job_id = job_id; token = token; generation = pos generation }))
              ↔ ((j ≡ some job_id) × (t ≡ some token) × (g ≡ some generation)))
          × ((g ≡ none) ↔ (
              attempt_of j t g
              ≡ refused
                  (record { status_code = 422; detail = "Agent execution lease is required" })))
    at (some j) (some t) (some g) h = (λ job_id token generation. ground arith, ground arith)
    at none none none h = (λ job_id token generation. ground arith, ground arith)
    at none none (some g) h = absurd (ground arith)
    at none (some t) g h = absurd (ground arith)
    at (some j) none g h = absurd (ground arith)
    at (some j) (some t) none h = absurd (ground arith)
