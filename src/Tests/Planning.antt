-- ===== src/Tests/Planning.antt =====
-- The planning theorems at concrete inputs.
use slimx_agent.Prelude.{
  ◌≡◌, ◌↔◌, ◌≤◌, String, true, false, Option, none, some, [], ◌∷◌, contains, filter_if, lookup, ◌≢◌,
  refl, List, length,
}
use slimx_agent.Contracts.{allowed_step_types}
use slimx_agent.Json.{
  Json, string_members, null, bool, str, arr, obj, nil, cons, Fields, end, field,
}
use slimx_agent.Json.Text.{truthy}
use slimx_agent.Outcomes.{ok}
use slimx_agent.Store.{Run, Step}
use slimx_agent.Policies.{permission_block_reason, required_grant, granted_tools}
use slimx_agent.Planning.Repair.{repair_plan_data}
use slimx_agent.Planning.Repaired.{Repaired, repair_plan_data-Repaired, repair_plan_data_idem}
use slimx_agent.Planning.Validate.{AgentPlan, AllRunnable, validate_plan, plan, validate_plan_iff}
use slimx_agent.Planning.Advertised.{
  advertised_step_types, never_advertised_step_types, advertised_iff, IsGrantList, is_list,
  grants_of, iterated_texts, is_advertised,
}
use slimx_agent.Tests.Drives.{auto_run, searching}

-- A step under an alias and one of a type that does not exist.
abbrev untitled : Fields
untitled = field "type" (str "model_call") (field "task" (str "Write a summary") end)

abbrev loose_plan : Fields
loose_plan =
    field "steps"
      (arr (cons (obj untitled) (cons (obj (field "type" (str "dance") end)) (cons null nil)))) end

repair_plan_data-Repaired_example :
    (fs : Fields) × (repair_plan_data (obj loose_plan) ≡ obj fs) × Repaired loose_plan fs
repair_plan_data-Repaired_example = repair_plan_data-Repaired loose_plan

repair_plan_data_idem_example :
    repair_plan_data (repair_plan_data (obj loose_plan)) ≡ repair_plan_data (obj loose_plan)
repair_plan_data_idem_example = repair_plan_data_idem (obj loose_plan)

abbrev one_step : AgentPlan
one_step = record {
  assumptions = [];
  steps =
      record {
        title = "Write";
        type = "model_call";
        instruction = "Write a summary";
        expected_output = "";
        requires_approval = false;
        input_refs = none;
        params = none;
      }
      ∷ [];
}

abbrev reads : Fields → Option AgentPlan
reads fs = some one_step

abbrev describes : Fields → String
describes fs = "Plan failed schema validation"

validate_plan_iff_example : (validate_plan reads describes (obj loose_plan) ≡ plan one_step) ↔ (
    (reads loose_plan ≡ some one_step)
    × AllRunnable one_step.steps
    × (1 ≤ length one_step.steps)
    × (length one_step.steps ≤ 12))
validate_plan_iff_example = validate_plan_iff reads describes loose_plan one_step

stored_list : IsGrantList auto_run.allowed_tools_json
stored_list = is_list _ refl

advertised_iff_example :
    (types : List String) × (advertised_step_types auto_run.allowed_tools_json ≡ ok types)
    × ((step : Step)
        → (contains types step.type ≡ true) ↔ (
            (contains allowed_step_types step.type ≡ true)
            × (contains never_advertised_step_types step.type ≡ false)
            × (permission_block_reason step auto_run ≡ none)))
advertised_iff_example = advertised_iff auto_run stored_list

-- An object's keys are read as grants.
abbrev granted_once : Json
granted_once = obj (field "web_search" (bool false) (field "code_read" null end))

abbrev granted_loosely : Json
granted_loosely =
    arr (cons (str "code_read") (cons null (cons (str "web_search") (cons (str "code_read") nil))))

-- The gate reads no grant of such an object, so that a step of an advertised type is skipped.
abbrev object_run : Run
object_run = record auto_run { allowed_tools_json = obj (field "web_search" (bool true) end) }

advertised_and_blocked :
    ((types : List String) × (advertised_step_types object_run.allowed_tools_json ≡ ok types)
      × (contains types searching.type ≡ true))
    × (permission_block_reason searching object_run ≢ none)
unfolding advertised_step_types is_advertised grants_of iterated_texts truthy contains filter_if
    required_grant lookup permission_block_reason granted_tools string_members
advertised_and_blocked = ((_, refl, refl), λ e. cc e)
