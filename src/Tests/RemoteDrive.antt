-- ===== src/Tests/RemoteDrive.antt =====
-- A drive over a scripted host, which completes the first step and then goes away.
use slimx_agent.Prelude.{
  clip, repr, show, count_if, find_first, filter_if, contains, lookup, true, false, ◌≡◌, refl, none,
  some, List, [], ◌∷◌,
}
use slimx_agent.Json.{
  positive_int, string_members, null, str, int, pos, obj, arr, nil, cons, end, field,
}
use slimx_agent.Store.{Run, Step, unset, put}
use slimx_agent.Outcomes.{text_of, short_error, ok}
use slimx_agent.Engine.Monad.{
  drained_events, next_sequence, now, rollback, invoke, append_event, set_step_state,
  set_run_status, get_step, get_steps, get_run, ◌>>=◌,
}
use slimx_agent.Engine.Step.{
  call_hook, run_failure_reported, gate_for_approval, fail_step, skip_step, fail_run, settle,
  run_step,
}
use slimx_agent.Engine.Drive.{
  yield_all, execute, drain, budget_exhausted_reason, next_pass, completion, approval_gate,
  permission_gate, visit, one_pass, passes, drive, execute_run_events,
}
use slimx_agent.Engine.Gates.{
  failure_reported, dict_set, dict_merge, approval_payload, wall_budget_reason, steps_budget_reason,
  resolve_gate, run_gate, halted, next_step,
}
use slimx_agent.Policies.{
  required_grant, granted_tools, permission_block_reason, normalize_preapproved, requires_stop,
  classify_step,
}
use slimx_agent.Tools.{ToolRegistry, resolve, register}
use slimx_agent.Engine.Host.{
  Handler, Call, state_set, status_set, got_run, got_steps, event_appended,
}
use slimx_agent.Engine.Safety.{log}
use slimx_agent.HostClient.Operations as callbacks
use slimx_agent.HostClient.Io as io
use slimx_agent.HostClient.Transport.{Answer}
use slimx_agent.HttpStore.Store as store
use slimx_agent.HttpStore.Store.{http_run_store}
use slimx_agent.HttpTools.{remote_handler, build_remote_registry}
use slimx_agent.Tests.Remote.{scripted, clock, client, ollama, run_wire, step_wire, answers_json}
use slimx_agent.Tests.Drives.{auto_run}

abbrev registry : ToolRegistry (Handler (List Answer))
registry = ("model_call", remote_handler scripted client ollama) ∷ []

built :
    build_remote_registry (remote_handler scripted client ollama) (some ("model_call" ∷ []))
    ≡ ok registry
unfolding build_remote_registry register lookup
built = refl

-- The answers up to the invocation.
abbrev script : List Answer
script =
    answers_json (obj (field "next_sequence" (int (pos 1)) end))
    ∷ answers_json (obj run_wire)
    ∷ answers_json (arr nil)
    ∷ answers_json (obj run_wire)
    ∷ answers_json (arr (cons (obj step_wire) nil))
    ∷ answers_json (obj step_wire)
    ∷ answers_json (obj (field "sequence" (int (pos 1)) end))
    ∷ answers_json (obj (field "outcome" (str "completed") end))
    ∷ []

-- A test unfolds this name to run the engine over the callbacks.
unfoldable remote_log : List Call
unfolding execute_run_events drive passes one_pass visit permission_gate approval_gate completion
    next_pass budget_exhausted_reason drain execute run_step settle fail_run skip_step fail_step
    get_run get_steps get_step set_run_status set_step_state append_event invoke rollback now
    next_sequence drained_events ◌>>=◌ next_step halted run_gate resolve_gate classify_step
    requires_stop normalize_preapproved permission_block_reason granted_tools required_grant
    string_members positive_int steps_budget_reason wall_budget_reason approval_payload dict_merge
    dict_set gate_for_approval run_failure_reported failure_reported lookup contains filter_if
    find_first count_if resolve yield_all show repr clip short_error text_of call_hook
remote_log = log (http_run_store scripted clock client) registry none auto_run 3 script

abbrev writing : Step
writing = record {
  id = "s1";
  type = "model_call";
  title = "";
  status = "pending";
  requires_approval = false;
}

abbrev stored_run : Run
stored_run = record {
  id = "r1";
  status = "planned";
  approval_policy = some "auto_complete";
  auto_approve = false;
  allowed_tools_json = null;
  budget_max_steps = int (pos 5);
  budget_max_wall_seconds = null;
  preapproved_tools = null;
}

abbrev before_writing : List Call
before_writing =
    event_appended "r1" "agent.step.started" (some "s1") (some (("type", str "model_call") ∷ []))
      true
    ∷ state_set "s1" "running" unset unset
    ∷ got_steps (writing ∷ [])
    ∷ got_run (some stored_run)
    ∷ status_set auto_run "running"
    ∷ []

abbrev settled : Call
settled = state_set "s1" "completed" (put none) (put none)
