-- ===== src/Tests/Drives.antt =====
-- Drives of a run in memory.
use slimx_agent.Prelude.{
  clip, repr, show, count_if, find_first, filter_if, contains, lookup, none, some, List, [], ◌∷◌,
  false,
}
use slimx_agent.Outcomes.{step_outcome_unknown, raised, text_of, short_error, ok}
use slimx_agent.Engine.Monad.{
  run_end, drained_events, next_sequence, now, rollback, invoke, append_event, set_step_state,
  set_run_status, get_step, get_steps, get_run, ◌>>=◌,
}
use slimx_agent.Engine.Step.{
  call_hook, run_failure_reported, gate_for_approval, fail_step, skip_step, fail_run, settle,
  run_step,
}
use slimx_agent.Engine.Drive.{
  yield_all, execute, drain, budget_exhausted_reason, next_pass, completion, approval_gate,
  permission_gate, visit, one_pass, passes, drive, execute_run_events,
}
use slimx_agent.Engine.Gates.{
  failure_reported, dict_set, dict_merge, approval_payload, wall_budget_reason, steps_budget_reason,
  resolve_gate, run_gate, halted, next_step,
}
use slimx_agent.Json.{positive_int, string_members, null, arr, of_strings}
use slimx_agent.Policies.{
  required_grant, granted_tools, permission_block_reason, normalize_preapproved, requires_stop,
  classify_step,
}
use slimx_agent.Store.{Run, Step}
use slimx_agent.Tools.{ToolRegistry, resolve}
use slimx_agent.Engine.Host.{Handler, Call}
use slimx_agent.Engine.Safety.{log}
use slimx_agent.Tests.Memory.{Memory, memory}

abbrev pub auto_run : Run
auto_run = record {
  id = "r1";
  status = "planned";
  approval_policy = some "auto_complete";
  auto_approve = false;
  allowed_tools_json = arr (of_strings ("web_search" ∷ []));
  budget_max_steps = null;
  budget_max_wall_seconds = null;
  preapproved_tools = arr (of_strings ("web_search" ∷ "mcp_call" ∷ []));
}

abbrev pub searching : Step
searching = record {
  id = "s1";
  type = "web_search";
  title = "Search";
  status = "pending";
  requires_approval = false;
}

abbrev pub writing : Step
writing = record {
  id = "s2";
  type = "model_call";
  title = "Write";
  status = "pending";
  requires_approval = false;
}

abbrev pub world : Memory
world = record {
  run = auto_run;
  steps = searching ∷ writing ∷ [];
  events = [];
  last = 0;
  clock = 0;
}

abbrev pub returns : Handler Memory
returns run step m = (ok none, m)

abbrev pub handlers : ToolRegistry (Handler Memory)
handlers = ("web_search", returns) ∷ ("model_call", returns) ∷ []

-- The log of a drive of some steps. A test unfolds this name to run the engine.
unfoldable pub run_log : ToolRegistry (Handler Memory) → Run → List Step → List Call
unfolding execute_run_events drive passes one_pass visit permission_gate approval_gate completion
    next_pass budget_exhausted_reason drain execute run_step settle fail_run skip_step fail_step
    get_run get_steps get_step set_run_status set_step_state append_event invoke rollback now
    next_sequence drained_events ◌>>=◌ next_step halted run_gate resolve_gate classify_step
    requires_stop normalize_preapproved permission_block_reason granted_tools required_grant
    string_members positive_int steps_budget_reason wall_budget_reason approval_payload dict_merge
    dict_set gate_for_approval run_failure_reported failure_reported lookup contains filter_if
    find_first count_if resolve yield_all show repr clip short_error text_of call_hook run_end
run_log registry run steps =
    log memory registry none run 5
      (record { run = run; steps = steps; events = []; last = 0; clock = 0 })

-- A handler that loses the outcome of its step.
abbrev loses : Handler Memory
loses run step m = (raised (step_outcome_unknown "no answer" none), m)

abbrev pub lossy : ToolRegistry (Handler Memory)
lossy = ("web_search", loses) ∷ []

abbrev pub ended_run : Run
ended_run = record auto_run { status = "cancelled" }

abbrev pub idle : Memory
idle = record { run = auto_run; steps = []; events = []; last = 0; clock = 0 }

abbrev pub driven_run : Run
driven_run = record auto_run { status = "running" }
