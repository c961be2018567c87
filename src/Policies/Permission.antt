-- ===== src/Policies/Permission.antt =====
-- slimx_agent/policies.py: when a step is permitted for a run.
use slimx_agent.Prelude.{
  String, ◌≡◌, ◌↔◌, true, none, some, [], arith, contains, Option-cases, inl, inr,
}
use slimx_agent.Json.{string_members}
use slimx_agent.Store.{Run, Step}
use slimx_agent.Policies.{
  hard_gated, classify_step, required_grant, granted_tools, permission_block_reason,
}
use slimx_agent.Policies.Matrix.{hard_gated-needs_grant}

-- A step is permitted exactly when the run lists the grant that its type needs, if it needs one.
pub permission_iff :
    (step : Step) (run : Run)
    → (permission_block_reason step run ≡ none) ↔ (
        (grant : String)
        → required_grant step.type ≡ some grant
        → contains (granted_tools run) grant ≡ true)
unfolding permission_block_reason
permission_iff step run = elim (Option-cases (required_grant step.type)) [
  | inl free ↦ (λ _ g e. cc, λ _. rw (free, permission_block_reason))
  | inr (grant, e) ↦ (
    λ permitted g e'. ground arith,
    λ all. rw (e, permission_block_reason) (ground (arith, all grant e)),
  )
]

-- A run that stores nothing list-like, or a list with no text in it, permits no hard-gated step.
no_grants-block_hard :
    (step : Step) (run : Run)
    → string_members run.allowed_tools_json ≡ []
    → (classify_step step).0 ≡ hard_gated
    → (reason : String) × (permission_block_reason step run ≡ some reason)
unfolding granted_tools contains
no_grants-block_hard step run empty hard = elim (Option-cases (permission_block_reason step run)) [
  | inl permitted ↦
      let (grant, e) = hard_gated-needs_grant step hard in
      absurd (ground (arith, (permission_iff step run).0 permitted grant e))
  | inr blocked ↦ blocked
]
