-- ===== src/Policies/Grants.antt =====
-- slimx_agent/policies.py: the grant that each gated type needs, and the labels of the grants.
use slimx_agent.Prelude.{String, List, [], ◌∷◌}

abbrev pub grant_by_type : List (String × String)
grant_by_type =
    ("web_search", "web_search")
    ∷ ("web_fetch", "web_search")
    ∷ ("mcp_call", "mcp_tools")
    ∷ ("plugin_tool", "plugin_tools")
    ∷ ("code_search", "code_read")
    ∷ ("code_read", "code_read")
    ∷ ("propose_patch", "code_read")
    ∷ ("stage_files", "code_read")
    ∷ ("review_patch", "code_read")
    ∷ ("apply_patch_sandbox", "code_write")
    ∷ ("run_check", "code_write")
    ∷ ("package_patch", "code_write")
    ∷ ("spawn_run", "spawn_agents")
    ∷ ("join_runs", "spawn_agents")
    ∷ ("create_note", "evidence_write")
    ∷ ("add_tag", "evidence_write")
    ∷ ("create_work_item", "evidence_write")
    ∷ ("link_work_item", "evidence_write")
    ∷ ("promote_to_knowledge", "evidence_write")
    ∷ ("netops_collect", "netops_read")
    ∷ ("netops_apply", "netops_write")
    ∷ ("netops_auto_apply", "netops_write")
    ∷ ("data_catalog", "data_read")
    ∷ ("data_query", "data_read")
    ∷ ("analyze_data", "data_read")
    ∷ []

abbrev pub grant_labels : List (String × String)
grant_labels =
    ("web_search", "Web search")
    ∷ ("code_read", "Codebase (read-only)")
    ∷ ("code_write", "Edit code (sandboxed patches)")
    ∷ ("spawn_agents", "Sub-agents")
    ∷ ("mcp_tools", "Connector tools (MCP)")
    ∷ ("evidence_write", "Save notes & tags")
    ∷ ("netops_read", "Network telemetry (read-only)")
    ∷ ("netops_write", "Apply network changes")
    ∷ ("plugin_tools", "Trusted tool plugins")
    ∷ ("data_read", "Data sources (read-only SQL)")
    ∷ []
