-- ===== src/Policies.antt =====
-- slimx_agent/policies.py: the deterministic gates. `classify_step` and `requires_stop` decide
-- whether a permitted step stops for review, `permission_block_reason` whether it is permitted.
mod Tiers
mod Reasons
mod Grants
pub mod Gate
pub mod Matrix
pub mod Permission
pub mod Normalize
pub use Tiers.*
pub use Grants.*
use slimx_agent.Prelude.{
  String, ◌<>◌, Bool, true, false, ◌&&◌, ◌||◌, not, Option, none, some, List, [], ◌∷◌, ◌++◌, ◌==◌,
  if◌then◌else◌, strip, repr, contains, lookup, filter_if, is_some,
}
use slimx_agent.Json.{Json, string_members}
use slimx_agent.Contracts.{grantable_tools}
use slimx_agent.Store.{Run, Step}
pub use Reasons.{reason_by_type}

-- `a or b` for a text that may be absent: an empty text is false.
abbrev text_or : Option String → String → String
text_or none d = d
text_or (some s) d = if s == "" then d else s

abbrev pub or_review : Option Tier → Tier
or_review none = review_recommended
or_review (some t) = t

abbrev is_review : Tier → Bool
is_review review_recommended = true
is_review _ = false

unfoldable pub classify_step : Step → Tier × String
classify_step step =
    let known = lookup step.type tier_by_type in
    let tier = or_review known in
    let reason = text_or (lookup step.type reason_by_type) (reason_by_tier tier) in
    (
      tier,
      if is_review tier && not (is_some known)
          then "Unrecognized step type " <> (repr step.type <> " — review before it runs.")
          else reason,
    )

abbrev pub preapprovable_step_types : List String
preapprovable_step_types = "web_search" ∷ "web_fetch" ∷ []

-- The policy's part of the decision, for a classification that is no uncleared hard gate.
stop_by_policy : String → Tier → Bool → Bool
stop_by_policy policy tier flagged =
    if policy == "auto_complete"
    then false
    else if policy == "review_checkpoints"
    then is_review tier || flagged
    else is_review tier || flagged

-- `requires_stop(policy, classification, requires_approval, preapproved=…)`
unfoldable pub requires_stop : String → Tier → Bool → Bool → Bool
unfolding stop_by_policy
requires_stop policy hard_gated flagged preapproved =
    if not preapproved then true else stop_by_policy policy review_recommended flagged
requires_stop policy tier flagged preapproved = stop_by_policy policy tier flagged

unfoldable pub normalize_preapproved : Json → List String
normalize_preapproved value = filter_if (contains preapprovable_step_types) (string_members value)

unfoldable pub required_grant : String → Option String
required_grant step_type = lookup step_type grant_by_type

unfoldable pub granted_tools : Run → List String
granted_tools run = string_members run.allowed_tools_json

label_of : String → String
label_of grant = elim (lookup grant grant_labels) [ none ↦ grant | some label ↦ label ]

unfoldable pub permission_block_reason : Step → Run → Option String
unfolding label_of
permission_block_reason step run = elim (required_grant step.type) [
  | none ↦ none
  | some grant ↦
      if contains (granted_tools run) grant
      then none
      else some (
          "'"
          <> (label_of grant
              <> "' was not enabled for this run — skipping (turn it on in the run's Tools to use it)."))
]

-- The loop's test: a known key that no earlier item asked for.
unfoldable pub kept : String → List String → Bool
kept key seen = not (key == "") && (contains grantable_tools key && not (contains seen key))

unfoldable pub grants_loop : List String → List String → List String → List String
grants_loop [] seen out = out
grants_loop (item ∷ rest) seen out =
    let key = strip item in
    let keep = kept key seen in
    grants_loop rest (if keep then key ∷ seen else seen) (if keep then out ++ key ∷ [] else out)

unfoldable pub normalize_grants : Option (List String) → Option (List String)
unfolding grants_loop kept
normalize_grants none = none
normalize_grants (some raw) = some (grants_loop raw [] [])
