-- ===== src/Policies/Reasons.antt =====
-- slimx_agent/policies.py: what each gated type does, in the words of the approval gate.
use slimx_agent.Prelude.{String, List, [], ◌∷◌}

abbrev fan_out_reason : String
fan_out_reason =
    "Runs several models (slower/costlier and may use extra providers) — a good place to review."

abbrev pub reason_by_type : List (String × String)
reason_by_type =
    (
      "web_search",
      "Sends your query to an external web-search service — always asks first, even in Auto-complete.",
    )
    ∷ (
      "web_fetch",
      "Fetches one public web page (read-only) — always asks first, even in Auto-complete, unless you pre-approved web research for this run.",
    )
    ∷ (
      "research_iterate",
      "Reviews findings and may extend the plan; every added step still passes the permission and approval gates.",
    )
    ∷ ("compare_models", fan_out_reason)
    ∷ (
      "join_runs",
      "Runs the spawned sub-agents, each its own series of model calls (slower/costlier) — a good place to review.",
    )
    ∷ (
      "create_note",
      "Saves a note in this project — additive and reversible; review what it writes.",
    )
    ∷ (
      "add_tag",
      "Adds a label to an existing highlight or comment in this project — additive and reversible; review what it changes.",
    )
    ∷ (
      "create_work_item",
      "Creates a task in this project — additive and reversible; review what it writes.",
    )
    ∷ (
      "link_work_item",
      "Links an existing task to a document or conversation in this project — additive and reversible; review what it changes.",
    )
    ∷ (
      "promote_to_knowledge",
      "Promotes this run's synthesis into the project Knowledge Base — additive and reversible; review what becomes curated knowledge.",
    )
    ∷ ("write_file", "Writes a file into this run's sandboxed workspace — review what it writes.")
    ∷ (
      "package_artifact",
      "Packages this run's workspace files as a downloadable artifact — review what it includes.",
    )
    ∷ (
      "apply_patch_sandbox",
      "Applies the proposed patch inside this run's sandbox — review the change first.",
    )
    ∷ (
      "run_check",
      "Runs one allowlisted check command inside this run's sandbox — review before it executes.",
    )
    ∷ (
      "netops_collect",
      "Reads network telemetry from your devices (read-only, leaves this machine) — a good place to review.",
    )
    ∷ (
      "data_catalog",
      "Lists the allowed tables and columns of a connected data source (read-only, leaves this machine) — a good place to review.",
    )
    ∷ (
      "data_query",
      "Runs one read-only query against a connected data source (leaves this machine) — a good place to review.",
    )
    ∷ (
      "netops_auto_apply",
      "Applies a bounded low-risk change to a network device, with automatic rollback if validation fails — review before it runs.",
    )
    ∷ (
      "netops_apply", "Changes a network device — always requires approval, even in Auto-complete.",
    )
    ∷ (
      "mcp_call",
      "Calls a connector tool that may write to an external system — always requires approval, even in Auto-complete.",
    )
    ∷ (
      "plugin_tool",
      "Runs admin-installed plugin code the platform cannot classify — always requires approval, even in Auto-complete.",
    )
    ∷ []
