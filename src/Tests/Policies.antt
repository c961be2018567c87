-- ===== src/Tests/Policies.antt =====
-- The theorems on the approval gate and the tool policy at concrete inputs.
use slimx_agent.Prelude.{
  String, ◌≡◌, ◌≢◌, ◌↔◌, ◌⊎◌, refl, true, false, some, none, List, [], ◌∷◌, contains, lookup, strip,
  ◌&&◌,
}
use slimx_agent.Json.{Json, arr, of_strings}
use slimx_agent.Store.{Step}
use slimx_agent.Contracts.{grantable_tools}
use slimx_agent.Policies.{
  auto_safe, review_recommended, hard_gated, classify_step, requires_stop, normalize_preapproved,
  normalize_grants, preapprovable_step_types, grants_loop, kept,
}
use slimx_agent.Policies.Gate.{requires_stop_iff, hard_gate_stops}
use slimx_agent.Policies.Normalize.{Distinct, asks_for, normalize_grants_lem}
use slimx_agent.Tests.Drives.{searching}

abbrev calling : Step
calling = record searching { type = "mcp_call" }

abbrev covering : Json
covering = arr (of_strings ("mcp_call" ∷ "netops_apply" ∷ []))

abbrev asked : List String
asked = " web_search " ∷ "shell" ∷ "web_search" ∷ []

requires_stop_iff_example :
    (requires_stop "review_external" review_recommended false false ≡ true) ↔ (
      (review_recommended ≡ hard_gated) × (false ≡ false)
      ⊎ (◌≢◌ {A = String} "review_external" "auto_complete")
        × ((review_recommended ≢ auto_safe) ⊎ (false ≡ true)))
requires_stop_iff_example = requires_stop_iff "review_external" review_recommended false false

calling_hard : (classify_step calling).0 ≡ hard_gated
unfolding classify_step lookup
calling_hard = refl

calling_outside : contains preapprovable_step_types "mcp_call" ≡ false
unfolding contains
calling_outside = refl

hard_gate_stops_example :
    requires_stop "auto_complete"
      (classify_step calling).0
      false
      (contains (normalize_preapproved covering) "mcp_call")
    ≡ true
hard_gate_stops_example =
    hard_gate_stops calling "auto_complete" covering calling_hard calling_outside

normalize_grants_lem_example :
    (normalize_grants none ≡ none)
    × ((out : List String) × (normalize_grants (some asked) ≡ some out)
        × Distinct out
        × ((k : String) → contains out k ≡ (contains grantable_tools k && asks_for asked k)))
normalize_grants_lem_example = normalize_grants_lem asked

asked_once : normalize_grants (some asked) ≡ some ("web_search" ∷ [])
unfolding normalize_grants grants_loop kept contains strip
asked_once = refl
