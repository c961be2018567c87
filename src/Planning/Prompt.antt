-- ===== src/Planning/Prompt.antt =====
-- slimx_agent/planning.py: the prompts of the planner and of the self-check, piece by piece as the
-- code appends them.
use slimx_agent.Prelude.{
  String, ◌<>◌, ◌==◌, Bool, true, false, Option, none, some, List, [], ◌∷◌, if◌then◌else◌, contains,
  filter_if,
}
use slimx_agent.Contracts.{allowed_step_types}
use slimx_agent.Json.{Json, arr, of_strings}
use slimx_agent.Outcomes.{Result, ok, ◌>>=◌}
use slimx_agent.Planning.Advertised.{advertised_step_types, is_advertised, grants_of}

-- Texts side by side, and texts with a comma between them.
abbrev joined : List String → String
joined [] = ""
joined (s ∷ l) = s <> joined l

abbrev comma_separated : List String → String
comma_separated [] = ""
comma_separated (s ∷ []) = s
comma_separated (s ∷ (t ∷ l)) = s <> (", " <> comma_separated (t ∷ l))

abbrev rules : String → List String
rules allowed =
    "You plan a short, supervised AI workflow. Output JSON ONLY, matching the schema, with "
    ∷ "2 to 5 steps. Return concrete VALUES — never the schema/type definitions themselves. "
    ∷ "EVERY step MUST include all of: title, type, instruction, "
    ∷ "expected_output, requires_approval. `instruction` is the exact prompt/task text "
    ∷ "for that step and must never be empty.\n" ∷ "`type` MUST be exactly one of: " ∷ allowed
    ∷ ". Prefer self-contained steps:\n"
    ∷ "- model_call: ask a model to analyze or write something (use for most steps).\n"
    ∷ "- compare_models: ask the same question across the workspace's models to compare answers.\n"
    ∷ "- create_synthesis: merge earlier results into one saved summary (good final step).\n"
    ∷ "- knowledge_retrieve: pull promoted decisions/syntheses from the project Knowledge Base "
    ∷ "so the run respects what the team already concluded.\n"
    ∷ "- attach_context: save earlier text as reusable context.\n"
    ∷ "- project_inventory: map the active project (documents, tags, evidence counts) when the "
    ∷ "goal needs project awareness first.\n"
    ∷ "- evidence_query: retrieve the user's saved evidence — highlights and comments, filtered "
    ∷ "by tag name, kind, or keyword — as a cited pack later steps reason over. Name the exact "
    ∷ "tag(s) or keyword(s) in the instruction; use it whenever the goal mentions tags, "
    ∷ "highlights, comments, or the user's own notes/evidence.\n"
    ∷ "- document_read: read one project document's extracted text by naming its title in the "
    ∷ "instruction (works without indexing).\n"
    ∷ "Use rag_retrieve ONLY if the goal needs indexed documents, and save_evidence ONLY if a "
    ∷ "specific quote and its source are already known. " ∷ []

abbrev with_web_search : List String
with_web_search =
    "Use web_search ONLY when the goal needs current or missing information the workspace does "
    ∷ "not already contain; it sends a query to an external service, so plan it sparingly and "
    ∷ "feed its results into a later model_call or create_synthesis. Never plan steps that delete "
    ∷ "data, run code, mutate files, or send messages. " ∷ []

abbrev without_web_search : List String
without_web_search =
    "Never plan steps that delete data, run code, call external tools (including web search), "
    ∷ "mutate files, or send messages. " ∷ []

abbrev with_code_read : List String
with_code_read =
    "You may inspect the codebase (read-only): code_search finds where something is, code_read "
    ∷ "reads one file by its repo-relative path. Use them to ground code analysis in real source, "
    ∷ "then feed findings into a model_call/create_synthesis. You CANNOT edit or run code. " ∷ []

abbrev with_evidence_write : List String
with_evidence_write =
    "You may save findings back into the project (additive, reversible): create_note writes a "
    ∷ "comment (put the comment in the instruction; optionally name a document to anchor it), and "
    ∷ "add_tag attaches a label to an existing highlight/comment. Use them to capture action items "
    ∷ "or organize evidence — never to delete anything. " ∷ []

abbrev with_spawn : List String
with_spawn =
    "You may delegate to sub-agents: each spawn_run step creates one sub-agent for ONE focused "
    ∷ "sub-goal (write the sub-goal as that step's instruction; at most 3 spawn_run steps). Plan "
    ∷ "exactly one join_runs step AFTER them — it executes all sub-agents and saves their results "
    ∷ "as context — then finish with a model_call or create_synthesis that merges those results. "
    ∷ []

abbrev with_netops : List String
with_netops =
    "You may collect READ-ONLY network telemetry: netops_collect gathers device/monitoring "
    ∷ "reads (interface/routing/VPN state, metrics, alerts, logs) from the NetOps bridge and "
    ∷ "saves them as evidence later steps reason over. Describe WHAT to collect for the incident "
    ∷ "in the instruction (e.g. 'collect BGP neighbor state and IKE/VPN logs for the flapping "
    ∷ "tunnel'). It never changes a device. Plan it early, then feed its results into a "
    ∷ "model_call (root-cause hypotheses) and a create_synthesis (incident report / remediation "
    ∷ "proposal). " ∷ []

abbrev hinted : String → List String
hinted evidence_hint =
    "\nThe active project's own material (available to project_inventory / evidence_query "
    ∷ "/ document_read): " ∷ evidence_hint ∷ " When the goal is about this material, plan those "
    ∷ "project-scoped steps — naming tags and document titles EXACTLY as is_list — before any "
    ∷ "generic model_call, and finish by reasoning over what they retrieved.\n" ∷ []

abbrev reviewed : String → List String
reviewed review_context =
    "\nThe user attached document-review context to this run: " ∷ review_context
    ∷ " It is already available to every step as conversation context, so DO "
    ∷ "NOT paste it into instructions. Plan steps that WORK ON this review context — favor "
    ∷ "create_synthesis to synthesize the review, and use rag_retrieve / attach_context / "
    ∷ "save_evidence where they fit — instead of a single generic model_call.\n" ∷ []

abbrev continued : List String
continued =
    "\nEarlier agent results from this conversation are attached as context. Plan steps "
    ∷ "that BUILD ON them — verify, extend, or synthesize further — instead of redoing "
    ∷ "completed work.\n" ∷ []

abbrev corrected : String → List String
corrected feedback =
    "\n\nYour previous attempt was rejected by validation: " ∷ feedback
    ∷ "\nReturn corrected JSON ONLY, matching the schema." ∷ []

-- `if text: prompt += …`; `None` and the empty text add nothing.
abbrev given : Option String → (String → List String) → String
given none piece = ""
given (some text) piece = if text == "" then "" else joined (piece text)

abbrev granted : Bool → List String → String
granted true piece = joined piece
granted false piece = ""

-- The prompt from the grants on, with the types that it advertises.
abbrev prompt_of :
    List String
    → (web_search code_read evidence_write spawn netops : Bool) → String
    → Option String
    → Option String
    → Bool
    → Option String
    → String
prompt_of types web_search code_read evidence_write spawn netops goal feedback review_context
      prior_results evidence_hint =
    joined (
      joined (rules (comma_separated types))
      ∷ (if web_search then joined with_web_search else joined without_web_search)
      ∷ granted code_read with_code_read
      ∷ granted evidence_write with_evidence_write
      ∷ granted spawn with_spawn
      ∷ granted netops with_netops
      ∷ "Set requires_approval=true for any step the user should review before it runs.\n"
      ∷ given evidence_hint hinted
      ∷ given review_context reviewed
      ∷ granted prior_results continued
      ∷ ("\nGoal: " <> goal)
      ∷ given feedback corrected
      ∷ [])

unfoldable pub build_planner_prompt :
    String → Option String → Option String → Json → Bool → Option String → Result String
unfolding advertised_step_types grants_of contains
build_planner_prompt goal feedback review_context allowed_tools prior_results evidence_hint = do
  grants ← grants_of allowed_tools
  types ← advertised_step_types (arr (of_strings grants))
  ok (
      prompt_of types (contains grants "web_search") (contains grants "code_read")
        (contains grants "evidence_write") (contains grants "spawn_agents")
        (contains grants "netops_read") goal feedback review_context prior_results evidence_hint)

unfoldable pub build_self_check_prompt : String → String → String
build_self_check_prompt goal result_text = joined (
    "You verify whether an AI agent's result satisfies the user's goal. Output JSON ONLY, "
    ∷ "matching the schema: satisfied (boolean), gaps (list of strings). Set satisfied=true "
    ∷ "unless something MATERIAL the goal asked for is missing. List at most 3 concrete, "
    ∷ "actionable gaps (an unanswered part of the goal, missing analysis, unsupported claims). "
    ∷ "Never invent scope beyond the goal.\n\n" ∷ "Goal: " ∷ goal ∷ "\n\nResult:\n" ∷ result_text
    ∷ [])

-- The types that are advertised for a list of texts.
abbrev types_for : List String → List String
types_for grants = filter_if (is_advertised grants) allowed_step_types

module _ (goal : String) (feedback review_context : Option String) (prior_results : Bool)
    (evidence_hint : Option String) where
  abbrev prompt_for : List String → String
  prompt_for grants =
      prompt_of (types_for grants) (contains grants "web_search") (contains grants "code_read")
        (contains grants "evidence_write") (contains grants "spawn_agents")
        (contains grants "netops_read") goal feedback review_context prior_results evidence_hint
