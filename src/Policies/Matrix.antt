-- ===== src/Policies/Matrix.antt =====
-- slimx_agent/policies.py: what the tables say together of every step type.
use slimx_agent.Prelude.{
  String, ◌≡◌, refl, ◌≢◌, ◌↔◌, Bool, true, false, ◌||◌, ◌&&◌, not, none, some, List, [], ◌∷◌, arith,
  contains, lookup, is_some, all-contains, all, all_entries, all_entries-lookup, Option-cases, inl,
  inr,
}
use slimx_agent.Contracts.{allowed_step_types, grantable_tools}
use slimx_agent.Store.{Step}
use slimx_agent.Policies.{
  Tier, auto_safe, review_recommended, hard_gated, Capability, external, tier_by_type,
  capability_by_type, reason_by_type, grant_by_type, or_review, classify_step,
  preapprovable_step_types, required_grant,
}

abbrev is_hard : Tier → Bool
is_hard hard_gated = true
is_hard _ = false

abbrev tier_is_hard : String → Bool
tier_is_hard t = elim (lookup t tier_by_type) [ none ↦ false | some tier ↦ is_hard tier ]

-- The types whose every use needs a person.
abbrev safety_checkpoints : List String
safety_checkpoints = "web_search" ∷ "web_fetch" ∷ "mcp_call" ∷ "plugin_tool" ∷ "netops_apply" ∷ []

hard_entries :
    all_entries (λ t tier. not (is_hard tier) || contains safety_checkpoints t) tier_by_type ≡ true
unfolding contains
hard_entries = refl

abbrev pub tier_of : String → Tier
tier_of t = or_review (lookup t tier_by_type)

hard_of_is_hard : (tier : Tier) → is_hard tier ≡ true → tier ≡ hard_gated
hard_of_is_hard tier h = ground arith

checkpoints_hard : all (λ t. is_hard (tier_of t)) safety_checkpoints ≡ true
unfolding lookup
checkpoints_hard = refl

abbrev is_auto : Tier → Bool
is_auto auto_safe = true
is_auto _ = false

-- A table entry that fixes the tier of its key passes any test that all entries pass.
tier_test :
    (p : String → Tier → Bool) (t : String) (tier : Tier)
    → all_entries p tier_by_type ≡ true
    → p t review_recommended ≡ true
    → tier_of t ≡ tier
    → p t tier ≡ true
tier_test p t tier checked default e = elim (Option-cases (lookup t tier_by_type)) [
  | inl missing ↦ ground arith
  | inr (found, here) ↦ ground (arith, all_entries-lookup p tier_by_type t {v = found} checked here)
]

-- A step is hard-gated exactly when its type is one of the five safety checkpoints.
classify_step-hard_iff :
    (step : Step)
    → ((classify_step step).0 ≡ hard_gated) ↔ (contains safety_checkpoints step.type ≡ true)
unfolding classify_step
classify_step-hard_iff step = (
  λ hard.
      tier_test (λ t tier. not (is_hard tier) || contains safety_checkpoints t) step.type hard_gated
        hard_entries refl hard,
  λ listed. hard_of_is_hard (tier_of step.type) (
      all-contains (λ t. is_hard (tier_of t)) safety_checkpoints step.type checkpoints_hard listed),
)

needs_grant : String → Bool
needs_grant t = is_some (required_grant t)

checkpoints_need_grants : all needs_grant safety_checkpoints ≡ true
unfolding needs_grant required_grant lookup
checkpoints_need_grants = refl

-- No hard-gated step can run on the approval gate alone: its type needs a grant as well.
pub hard_gated-needs_grant :
    (step : Step)
    → (classify_step step).0 ≡ hard_gated
    → (grant : String) × (required_grant step.type ≡ some grant)
unfolding needs_grant
hard_gated-needs_grant step hard = elim (Option-cases (required_grant step.type)) [
  | inl missing ↦ absurd (
      ground (
        arith,
        all-contains needs_grant safety_checkpoints step.type checkpoints_need_grants
            ((classify_step-hard_iff step).0 hard),
      ))
  | inr found ↦ found
]

is_external : Capability → Bool
is_external external = true
is_external _ = false

external_checked :
    all_entries (λ t c. not (is_external c) || contains safety_checkpoints t) capability_by_type
    ≡ true
unfolding is_external contains
external_checked = refl

-- A step type that leaves the machine by an external call is hard-gated.
external-hard_gated :
    (step : Step)
    → lookup step.type capability_by_type ≡ some external
    → (classify_step step).0 ≡ hard_gated
unfolding is_external
external-hard_gated step e = (classify_step-hard_iff step).1 (
    all_entries-lookup (λ t c. not (is_external c) || contains safety_checkpoints t)
      capability_by_type step.type {v = external} external_checked e)

preapprovable_checked :
    all
      (λ t.
        contains safety_checkpoints t
        && not (contains ("mcp_call" ∷ "plugin_tool" ∷ "netops_apply" ∷ []) t))
      preapprovable_step_types
    ≡ true
unfolding contains
preapprovable_checked = refl

grants_checked :
    all_entries
      (λ t grant. contains grantable_tools grant && contains allowed_step_types t)
      grant_by_type
    ≡ true
unfolding contains
grants_checked = refl

-- The grant that a step type needs can be asked for, and has a label for the user; the type is one
-- of the contract.
pub required_grant-known :
    (t grant : String)
    → required_grant t ≡ some grant
    → (contains grantable_tools grant ≡ true) × (contains allowed_step_types t ≡ true)
unfolding required_grant
required_grant-known t grant e = ground (
  arith,
  all_entries-lookup (λ t grant. contains grantable_tools grant && contains allowed_step_types t)
      grant_by_type t {v = grant} grants_checked e,
)

described : String → Bool
described t =
    is_some (lookup t tier_by_type)
    && (is_some (lookup t capability_by_type)
        && (not (not (is_auto (tier_of t))) || is_some (lookup t reason_by_type)))

all-described : all described allowed_step_types ≡ true
unfolding described lookup
all-described = refl

-- Every contract type has its own tier and capability class, and one that is not auto-safe has its
-- own sentence at the approval gate.
allowed-described :
    (t : String)
    → contains allowed_step_types t ≡ true
    → (is_some (lookup t tier_by_type) ≡ true)
      × (is_some (lookup t capability_by_type) ≡ true)
      × (tier_of t ≢ auto_safe → is_some (lookup t reason_by_type) ≡ true)
unfolding described
allowed-described t h = ground (arith, all-contains described allowed_step_types t all-described h)
