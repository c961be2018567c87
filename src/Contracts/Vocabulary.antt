-- ===== src/Contracts/Vocabulary.antt =====
-- slimx_agent/contracts.py: the step types, statuses, grants, modes and policies.
use slimx_agent.Prelude.{String, List, [], ◌∷◌, ◌++◌}

abbrev pub assisted_step_types : List String
assisted_step_types =
    "model_call" ∷ "compare_models" ∷ "rag_retrieve" ∷ "knowledge_retrieve" ∷ "attach_context"
    ∷ "create_synthesis" ∷ "compose_report" ∷ "save_evidence" ∷ []

abbrev pub external_step_types : List String
external_step_types = "web_search" ∷ "web_fetch" ∷ "mcp_call" ∷ []

abbrev pub code_step_types : List String
code_step_types = "code_search" ∷ "code_read" ∷ []

abbrev pub evidence_step_types : List String
evidence_step_types =
    "project_inventory" ∷ "evidence_query" ∷ "document_read" ∷ "conversation_search" ∷ []

abbrev pub evidence_write_step_types : List String
evidence_write_step_types = "create_note" ∷ "add_tag" ∷ []

abbrev pub task_step_types : List String
task_step_types = "create_work_item" ∷ "link_work_item" ∷ []

abbrev pub task_read_step_types : List String
task_read_step_types = "work_items_read" ∷ []

abbrev pub knowledge_write_step_types : List String
knowledge_write_step_types = "promote_to_knowledge" ∷ []

abbrev pub build_step_types : List String
build_step_types = "write_file" ∷ "package_artifact" ∷ []

abbrev pub code_build_step_types : List String
code_build_step_types =
    "propose_patch" ∷ "apply_patch_sandbox" ∷ "run_check" ∷ "package_patch" ∷ "stage_files"
    ∷ "review_patch" ∷ []

abbrev pub orchestration_step_types : List String
orchestration_step_types = "spawn_run" ∷ "join_runs" ∷ []

abbrev pub netops_step_types : List String
netops_step_types = "netops_collect" ∷ []

abbrev pub netops_write_step_types : List String
netops_write_step_types = "netops_apply" ∷ "netops_auto_apply" ∷ []

abbrev pub plugin_step_types : List String
plugin_step_types = "plugin_tool" ∷ []

abbrev pub data_step_types : List String
data_step_types = "data_catalog" ∷ "data_query" ∷ "analyze_data" ∷ []

abbrev pub research_step_types : List String
research_step_types = "research_iterate" ∷ []

abbrev pub allowed_step_types : List String
allowed_step_types =
    assisted_step_types
    ++ (evidence_step_types
        ++ (evidence_write_step_types
            ++ (task_step_types
                ++ (task_read_step_types
                    ++ (knowledge_write_step_types
                        ++ (external_step_types
                            ++ (code_step_types
                                ++ (build_step_types
                                    ++ (code_build_step_types
                                        ++ (orchestration_step_types
                                            ++ (netops_step_types
                                                ++ (netops_write_step_types
                                                    ++ (plugin_step_types
                                                        ++ (research_step_types
                                                            ++ (data_step_types)))))))))))))))

abbrev pub step_statuses : List String
step_statuses =
    "pending" ∷ "awaiting_approval" ∷ "approved" ∷ "running" ∷ "completed" ∷ "failed" ∷ "skipped"
    ∷ []

abbrev pub run_budget_fields : List String
run_budget_fields = "budget_max_steps" ∷ "budget_max_wall_seconds" ∷ []

abbrev pub grantable_tools : List String
grantable_tools =
    "web_search" ∷ "code_read" ∷ "code_write" ∷ "spawn_agents" ∷ "mcp_tools" ∷ "evidence_write"
    ∷ "netops_read" ∷ "netops_write" ∷ "plugin_tools" ∷ "data_read" ∷ []

abbrev pub agent_modes : List String
agent_modes = "assisted_workflow" ∷ "build_agent" ∷ "research_agent" ∷ []

abbrev pub approval_policies : List String
approval_policies = "manual" ∷ "review_checkpoints" ∷ "auto_complete" ∷ []
