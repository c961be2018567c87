-- ===== src/Policies/Tiers.antt =====
-- slimx_agent/policies.py: the risk tier, the reason and the capability class of each step type.
use slimx_agent.Prelude.{String, List, [], ◌∷◌}

pub data Tier : Type 0 where
  auto_safe review_recommended hard_gated : Tier

pub data Capability : Type 0 where
  read model external write persistent orchestration : Capability

abbrev pub tier_by_type : List (String × Tier)
tier_by_type =
    ("model_call", auto_safe)
    ∷ ("rag_retrieve", auto_safe)
    ∷ ("knowledge_retrieve", auto_safe)
    ∷ ("attach_context", auto_safe)
    ∷ ("create_synthesis", auto_safe)
    ∷ ("save_evidence", auto_safe)
    ∷ ("compare_models", review_recommended)
    ∷ ("web_search", hard_gated)
    ∷ ("web_fetch", hard_gated)
    ∷ ("mcp_call", hard_gated)
    ∷ ("plugin_tool", hard_gated)
    ∷ ("code_search", auto_safe)
    ∷ ("code_read", auto_safe)
    ∷ ("project_inventory", auto_safe)
    ∷ ("evidence_query", auto_safe)
    ∷ ("document_read", auto_safe)
    ∷ ("conversation_search", auto_safe)
    ∷ ("create_note", review_recommended)
    ∷ ("add_tag", review_recommended)
    ∷ ("create_work_item", review_recommended)
    ∷ ("link_work_item", review_recommended)
    ∷ ("work_items_read", auto_safe)
    ∷ ("promote_to_knowledge", review_recommended)
    ∷ ("write_file", review_recommended)
    ∷ ("package_artifact", review_recommended)
    ∷ ("propose_patch", auto_safe)
    ∷ ("stage_files", auto_safe)
    ∷ ("review_patch", auto_safe)
    ∷ ("apply_patch_sandbox", review_recommended)
    ∷ ("run_check", review_recommended)
    ∷ ("package_patch", auto_safe)
    ∷ ("spawn_run", auto_safe)
    ∷ ("join_runs", review_recommended)
    ∷ ("netops_collect", review_recommended)
    ∷ ("netops_apply", hard_gated)
    ∷ ("netops_auto_apply", review_recommended)
    ∷ ("data_catalog", review_recommended)
    ∷ ("data_query", review_recommended)
    ∷ ("analyze_data", auto_safe)
    ∷ ("research_iterate", auto_safe)
    ∷ ("compose_report", auto_safe)
    ∷ []

abbrev pub capability_by_type : List (String × Capability)
capability_by_type =
    ("model_call", model)
    ∷ ("compare_models", model)
    ∷ ("create_synthesis", model)
    ∷ ("compose_report", model)
    ∷ ("rag_retrieve", read)
    ∷ ("knowledge_retrieve", read)
    ∷ ("attach_context", read)
    ∷ ("save_evidence", persistent)
    ∷ ("web_search", external)
    ∷ ("web_fetch", external)
    ∷ ("mcp_call", external)
    ∷ ("plugin_tool", external)
    ∷ ("code_search", read)
    ∷ ("code_read", read)
    ∷ ("project_inventory", read)
    ∷ ("evidence_query", read)
    ∷ ("document_read", read)
    ∷ ("conversation_search", read)
    ∷ ("create_note", persistent)
    ∷ ("add_tag", write)
    ∷ ("create_work_item", persistent)
    ∷ ("link_work_item", write)
    ∷ ("work_items_read", read)
    ∷ ("promote_to_knowledge", persistent)
    ∷ ("write_file", write)
    ∷ ("package_artifact", write)
    ∷ ("propose_patch", model)
    ∷ ("stage_files", read)
    ∷ ("review_patch", model)
    ∷ ("apply_patch_sandbox", write)
    ∷ ("run_check", write)
    ∷ ("package_patch", write)
    ∷ ("spawn_run", orchestration)
    ∷ ("join_runs", orchestration)
    ∷ ("netops_collect", read)
    ∷ ("netops_apply", write)
    ∷ ("netops_auto_apply", write)
    ∷ ("research_iterate", model)
    ∷ ("data_catalog", read)
    ∷ ("data_query", read)
    ∷ ("analyze_data", read)
    ∷ []

-- The tier defaults are one function of the tier.
abbrev pub reason_by_tier : Tier → String
reason_by_tier auto_safe = "Additive, reversible step — runs automatically in Auto-complete."
reason_by_tier review_recommended =
    "A meaningful checkpoint — a good place to review before it runs."
reason_by_tier hard_gated = "Safety checkpoint — always requires approval, even in Auto-complete."
