-- ===== src/HttpStore/Snapshots.antt =====
-- slimx_agent/http_store.py: `RunSnapshot` and `StepSnapshot`, their parsing, and what the engine
-- reads of them.
use slimx_agent.Prelude.{String, ◌<>◌, Bool, not, Option, none, some, List, contains, clip, repr}
use slimx_agent.Contracts.{step_statuses}
use slimx_agent.Json.{ℤ, Json, null, int, arr, Fields, of_strings}
use slimx_agent.Store.{Run, Step}
use slimx_agent.Outcomes.{Result, ok, refuse_if, ◌>>=◌, ◌>>◌}
use slimx_agent.HostClient.Errors.{new_protocol_error}
use slimx_agent.HttpStore.Fields.{
  required_str, optional_str, optional_bool, optional_int, optional_str_list,
}

pub record RunSnapshot : Type 0 where
  pub id : String
  pub status : String
  pub approval_policy : Option String
  pub auto_approve : Bool
  pub allowed_tools_json : Option (List String)
  pub budget_max_steps : Option ℤ
  pub budget_max_wall_seconds : Option ℤ
  pub preapproved_tools : Option (List String)
  pub raw : Fields

pub record StepSnapshot : Type 0 where
  pub id : String
  pub type : String
  pub title : String
  pub status : String
  pub requires_approval : Bool
  pub raw : Fields

-- `RunSnapshot.from_wire`
unfoldable pub run_from_wire : Fields → Result RunSnapshot
run_from_wire wire = do
  id ← required_str wire "id" "run snapshot"
  status ← required_str wire "status" "run snapshot"
  approval_policy ← optional_str wire "approval_policy" "run snapshot"
  auto_approve ← optional_bool wire "auto_approve" "run snapshot"
  allowed_tools_json ← optional_str_list wire "allowed_tools_json" "run snapshot"
  budget_max_steps ← optional_int wire "budget_max_steps" "run snapshot"
  budget_max_wall_seconds ← optional_int wire "budget_max_wall_seconds" "run snapshot"
  preapproved_tools ← optional_str_list wire "preapproved_tools" "run snapshot"
  ok (record {
    id = id;
    status = status;
    approval_policy = approval_policy;
    auto_approve = auto_approve;
    allowed_tools_json = allowed_tools_json;
    budget_max_steps = budget_max_steps;
    budget_max_wall_seconds = budget_max_wall_seconds;
    preapproved_tools = preapproved_tools;
    raw = wire;
  })

abbrev pub or_empty_text : Option String → String
or_empty_text none = ""
or_empty_text (some s) = s

-- `StepSnapshot.from_wire`
unfoldable pub step_from_wire : Fields → Result StepSnapshot
step_from_wire wire = do
  status ← required_str wire "status" "step snapshot"
  refuse_if (not (contains step_statuses status)) (
      new_protocol_error ("the step snapshot has an unrecognized status " <> repr (clip 64 status)))
  id ← required_str wire "id" "step snapshot"
  type ← required_str wire "type" "step snapshot"
  title ← optional_str wire "title" "step snapshot"
  requires_approval ← optional_bool wire "requires_approval" "step snapshot"
  ok (record {
    id = id;
    type = type;
    title = or_empty_text title;
    status = status;
    requires_approval = requires_approval;
    raw = wire;
  })

abbrev pub nullable_list : Option (List String) → Json
nullable_list none = null
nullable_list (some l) = arr (of_strings l)

abbrev pub nullable_int : Option ℤ → Json
nullable_int none = null
nullable_int (some i) = int i

-- A snapshot as the engine's `RunView`.
unfoldable pub run_view : RunSnapshot → Run
run_view r = record {
  id = r.id;
  status = r.status;
  approval_policy = r.approval_policy;
  auto_approve = r.auto_approve;
  allowed_tools_json = nullable_list r.allowed_tools_json;
  budget_max_steps = nullable_int r.budget_max_steps;
  budget_max_wall_seconds = nullable_int r.budget_max_wall_seconds;
  preapproved_tools = nullable_list r.preapproved_tools;
}

unfoldable pub step_view : StepSnapshot → Step
step_view s = record {
  id = s.id;
  type = s.type;
  title = s.title;
  status = s.status;
  requires_approval = s.requires_approval;
}
