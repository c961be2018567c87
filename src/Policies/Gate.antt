-- ===== src/Policies/Gate.antt =====
-- slimx_agent/policies.py: when the approval gate stops, and what pre-approval can clear.
use slimx_agent.Prelude.{
  [], ap, String, ◌≡◌, refl, ◌≢◌, ◌↔◌, ◌⊎◌, inl, Bool, true, false, ◌&&◌, arith, eq_iff, contains,
  contains-filter_if,
}
use slimx_agent.Policies.{
  ◌∷◌, List, Tier, auto_safe, review_recommended, hard_gated, classify_step, requires_stop,
  normalize_preapproved, preapprovable_step_types,
}
use slimx_agent.Json.{of_strings, strings_of, arr, Json, string_members}
use slimx_agent.Store.{Step}

-- Execution stops exactly at an uncleared hard gate, or, under any policy but `auto_complete`, at a
-- step that is not auto-safe or that the planner flagged.
pub requires_stop_iff :
    (policy : String) (tier : Tier) (flagged preapproved : Bool)
    → (requires_stop policy tier flagged preapproved ≡ true) ↔ (
        (tier ≡ hard_gated) × (preapproved ≡ false)
        ⊎ (policy ≢ "auto_complete") × ((tier ≢ auto_safe) ⊎ (flagged ≡ true)))
unfolding requires_stop
requires_stop_iff policy hard_gated flagged preapproved =
    ground (arith, eq_iff policy "auto_complete")
requires_stop_iff policy review_recommended flagged preapproved =
    ground (arith, eq_iff policy "auto_complete")
requires_stop_iff policy auto_safe flagged preapproved =
    ground (arith, eq_iff policy "auto_complete")

-- A stored pre-approval covers exactly those of its texts that are pre-approvable types.
pub contains-normalize_preapproved :
    (value : Json) (t : String)
    → contains (normalize_preapproved value) t
      ≡ (contains (string_members value) t && contains preapprovable_step_types t)
unfolding normalize_preapproved
contains-normalize_preapproved value t =
    contains-filter_if (contains preapprovable_step_types) (string_members value) t

-- A hard-gated step whose type is not pre-approvable stops under every policy, whatever
-- pre-approval is stored with the run.
pub hard_gate_stops :
    (step : Step) (policy : String) (value : Json)
    → (classify_step step).0 ≡ hard_gated
    → contains preapprovable_step_types step.type ≡ false
    → requires_stop policy
        (classify_step step).0
        step.requires_approval
        (contains (normalize_preapproved value) step.type)
      ≡ true
hard_gate_stops step policy value hard outside =
    (requires_stop_iff policy _ _ _).1
      (inl (hard, ground (arith, contains-normalize_preapproved value step.type)))

-- A hard gate that does not stop was pre-approved, under `auto_complete`.
pub hard_gate_cleared :
    (policy : String) (flagged preapproved : Bool)
    → requires_stop policy hard_gated flagged preapproved ≡ false
    → (policy ≡ "auto_complete") × (preapproved ≡ true)
unfolding requires_stop
hard_gate_cleared policy flagged preapproved h = ground (arith, eq_iff policy "auto_complete")

pub strings_of-of_strings : (xs : List String) → strings_of (of_strings xs) ≡ xs
strings_of-of_strings [] = refl
strings_of-of_strings (x ∷ xs) = rw (strings_of-of_strings xs)

-- Normalising the set again, as the gate does with what the loop hands it, covers the same types.
pub contains-normalize_twice :
    (value : Json) (t : String)
    → contains (normalize_preapproved (arr (of_strings (normalize_preapproved value)))) t
      ≡ contains (normalize_preapproved value) t
unfolding string_members
contains-normalize_twice value t = ground (
  arith,
  contains-normalize_preapproved (arr (of_strings (normalize_preapproved value))) t,
  contains-normalize_preapproved value t,
  ap (λ (l : List String). contains l t) (strings_of-of_strings (normalize_preapproved value)),
)
