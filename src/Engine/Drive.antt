-- ===== src/Engine/Drive.antt =====
-- slimx_agent/engine.py, `execute_run_events` and `execute_run`: one drive of a run, up to its next
-- stop. The generator is run to its end; each event that it yields is logged.
use slimx_agent.Prelude.{
  ℕ, zero, suc, ◌-◌, String, ◌==◌, Bool, true, ◌&&◌, ◌||◌, Option, none, some, List, [], ◌∷◌,
  if◌then◌else◌, contains,
}
use slimx_agent.Json.{ℤ, pos, negsuc, str, positive_int}
use slimx_agent.Contracts.{
  step_statuses, budget_exhausted, run_paused, approval_granted, run_completed,
}
use slimx_agent.Store.{Run, Step, Event, unset}
use slimx_agent.Outcomes.{Result, ok, unknown_step_status, running_step_not_permitted}
use slimx_agent.Tools.{ToolRegistry}
use slimx_agent.Policies.{Tier, permission_block_reason}
use slimx_agent.Engine.Host.{Host, Handler, RunEndHook, yielded}
use slimx_agent.Engine.Monad.{
  State, Drive, pure, raise, ◌>>=◌, ◌>>◌, get_run, get_steps, set_run_status, set_step_state,
  append_event, now, next_sequence, drained_events,
}
use slimx_agent.Engine.Gates.{
  terminal_run_statuses, halted, fresh, next_step, steps_budget_reason, wall_budget_reason,
  run_gate, preapproved_of, is_hard_gated, approval_payload,
}
use slimx_agent.Engine.Step.{
  run_step, skip_step, gate_for_approval, call_hook, fail_run, run_failure_reported,
}

-- How the visit of a step ends: `continue`, or `return`.
pub data Turn : Type 0 where
  again stop : Turn

-- How a pass of the loop ends: by a step's turn, or by `break`, since no step is open.
pub data Flow : Type 0 where
  turn : Turn → Flow
  leave : Flow

-- How a loop on fuel ends.
pub data Ended : Type 0 where
  finished exhausted : Ended

-- `next_sequence - 1`
abbrev pub sub_one : ℤ → ℤ
sub_one (pos zero) = negsuc 0
sub_one (pos (suc n)) = pos n
sub_one (negsuc n) = negsuc (suc n)

abbrev pub can_be_skipped : String → Bool
can_be_skipped status = contains ("pending" ∷ "awaiting_approval" ∷ "approved" ∷ []) status

abbrev pub awaits_gate : String → Bool
awaits_gate status = contains ("pending" ∷ "awaiting_approval" ∷ []) status

abbrev pub set_cursor : {W : Type 0} → ℤ → State W → Result (Unit {0}) × State W
set_cursor value s = (ok tt, record s { cursor = value })

module _ (h : Host) where
  unfoldable pub yield_all : List Event → Drive h (Unit {0})
  yield_all [] s = (ok tt, s)
  yield_all (e ∷ events) s =
      yield_all events (record s { trace = yielded e ∷ s.trace; cursor = e.sequence })

  -- `drain()`: the events past the shared cursor.
  unfoldable pub drain : Run → Drive h (Unit {0})
  unfolding yield_all
  drain run s = (do events ← drained_events h run.id s.cursor; yield_all events) s

  unfoldable pub check_wall : Run → ℕ → Option ℕ → Drive h (Option String)
  check_wall run started none = pure none
  check_wall run started (some max_wall) = do
    time ← now h
    pure (wall_budget_reason run max_wall (time - started))

  unfoldable pub check_budget : Run → ℕ → Option String → Drive h (Option String)
  unfolding check_wall
  check_budget run started (some reason) = pure (some reason)
  check_budget run started none = check_wall run started (positive_int run.budget_max_wall_seconds)

  -- `_budget_exhausted_reason`: the clock is read only if the steps are within budget.
  unfoldable pub budget_exhausted_reason : Run → List Step → ℕ → Drive h (Option String)
  unfolding check_budget
  budget_exhausted_reason run steps started =
      check_budget run started (steps_budget_reason run steps)

module _ (h : Host) (registry : ToolRegistry (Handler h.World))
    (on_run_end : Option (RunEndHook h.World)) (run : Run) where
  -- What is done with the status of the step that ran.
  unfoldable pub after_step : Step → Drive h Turn
  after_step ran =
      if ran.status == "awaiting_approval"
      then pure stop
      else if ran.status == "failed"
      then (do fail_run h on_run_end run ran.id; drain h run; pure stop)
      else pure again

  unfoldable pub execute : Step → Drive h Turn
  unfolding after_step
  execute step = do ran ← run_step h registry run step; drain h run; after_step ran

  -- The step stops for a person.
  unfoldable pub park : Step → String → Drive h Turn
  park step reason = do
    if step.status == "pending" then gate_for_approval h run step reason else pure tt
    set_run_status h run "awaiting_approval"
    drain h run
    pure stop

  unfoldable pub record_approval : Step → Run → Option Tier → Drive h (Unit {0})
  record_approval step view classification =
      let preapproved_gate =
        is_hard_gated classification && contains (preapproved_of view) step.type in
      if step.requires_approval || (step.status == "awaiting_approval") || preapproved_gate
      then (do
        set_step_state h step.id "approved" unset unset
        append_event h run.id approval_granted (some step.id)
            (some (approval_payload view.approval_policy classification preapproved_gate)) true)
      else pure tt

  -- The approval gate, over the fresh view of the run.
  unfoldable pub approval_gate : Step → Run → Drive h Turn
  unfolding park record_approval execute
  approval_gate step view =
      if awaits_gate step.status
      then (let (classification, reason, stops) = run_gate step view in
          if stops
          then park step reason
          else (do record_approval step view classification; execute step))
      else execute step

  unfoldable pub pause_for_budget : String → Drive h Turn
  pause_for_budget reason = do
    append_event h run.id budget_exhausted none (some (("reason", str reason) ∷ [])) true
    set_run_status h run "paused"
    append_event h run.id run_paused none (some (("reason", str reason) ∷ [])) true
    drain h run
    pure stop

  unfoldable pub after_budget : Step → Run → Option String → Drive h Turn
  unfolding approval_gate pause_for_budget
  after_budget step view none = approval_gate step view
  after_budget step view (some reason) = pause_for_budget reason

  unfoldable pub budget_gate : Step → Run → List Step → ℕ → Drive h Turn
  unfolding after_budget
  budget_gate step view steps started = do
    exhausted_by ← budget_exhausted_reason h view steps started
    after_budget step view exhausted_by

  -- A step without its grant is skipped, or refused if an earlier drive left it running.
  unfoldable pub refuse : Step → String → Drive h Turn
  refuse step reason =
      if can_be_skipped step.status
      then (do skip_step h run step.id step.type reason; drain h run; pure again)
      else raise (running_step_not_permitted step.id reason)

  unfoldable pub after_permission : Step → Run → List Step → ℕ → Option String → Drive h Turn
  unfolding refuse budget_gate
  after_permission step view steps started none = budget_gate step view steps started
  after_permission step view steps started (some reason) = refuse step reason

  -- The permission gate, which comes first.
  unfoldable pub permission_gate : Step → Run → List Step → ℕ → Drive h Turn
  unfolding after_permission
  permission_gate step view steps started =
      if can_be_skipped step.status || (step.status == "running")
      then after_permission step view steps started (permission_block_reason step view)
      else budget_gate step view steps started

  unfoldable pub already_failed : Step → Drive h Turn
  already_failed step = do
    reported ← run_failure_reported h run.id step.id
    if reported
        then (do set_run_status h run "failed"; pure tt)
        else fail_run h on_run_end run step.id
    drain h run
    pure stop

  unfoldable pub visit : Step → Run → List Step → ℕ → Drive h Turn
  unfolding permission_gate already_failed
  visit step view steps started =
      if contains step_statuses step.status
      then (if step.status == "failed"
          then already_failed step
          else permission_gate step view steps started)
      else raise (unknown_step_status step.id step.status)

  unfoldable pub take_step : Run → List Step → ℕ → Option Step → Drive h Flow
  unfolding visit
  take_step view steps started none = pure leave
  take_step view steps started (some step) = do t ← visit step view steps started; pure (turn t)

  -- One pass of `while True`.
  unfoldable pub one_pass : ℕ → Drive h Flow
  unfolding take_step
  one_pass started = do
    current ← get_run h run.id
    if halted current then (do drain h run; pure (turn stop)) else (do
      steps ← get_steps h run.id
      take_step (fresh current run) steps started (next_step steps))

  -- After the last step.
  unfoldable pub completion : Drive h (Unit {0})
  completion = do
    final ← get_run h run.id
    if halted final then drain h run else (do
      set_run_status h run "completed"
      append_event h run.id run_completed none none true
      call_hook h on_run_end run "completed"
      drain h run)

  -- After a pass: the rest of the loop, or the completion block.
  unfoldable pub next_pass : Drive h Ended → Flow → Drive h Ended
  next_pass rest (turn again) = rest
  next_pass rest leave = do completion; pure finished
  next_pass rest (turn stop) = pure finished

  -- The loop and what follows it, with at most `fuel` passes.
  unfoldable pub passes : ℕ → ℕ → Drive h Ended
  passes zero started = pure exhausted
  passes (suc fuel) started = do flow ← one_pass started; next_pass (passes fuel started) flow

  unfoldable pub drive : ℕ → Drive h Ended
  drive fuel = do set_run_status h run "running"; drain h run; started ← now h; passes fuel started

  unfoldable pub execute_run_events : ℕ → Drive h Ended
  unfolding drive
  execute_run_events fuel = do
    sequence ← next_sequence h run.id
    set_cursor (sub_one sequence)
    if contains terminal_run_statuses run.status then pure finished else drive fuel

  -- The run, read again at the end, and whether the fuel was enough.
  unfoldable pub execute_run : ℕ → Drive h (Ended × Run)
  execute_run fuel = do
    ended ← execute_run_events fuel
    refreshed ← get_run h run.id
    pure (ended, fresh refreshed run)
