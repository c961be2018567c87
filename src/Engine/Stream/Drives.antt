-- ===== src/Engine/Stream/Drives.antt =====
-- slimx_agent/engine.py: where draining keeps an assertion that only yields touch, so does a
-- whole drive.
use slimx_agent.Prelude.{ℕ, zero, suc, String, Option, none, some, List}
use slimx_agent.Store.{Run, Step}
use slimx_agent.Policies.{Tier}
use slimx_agent.Tools.{ToolRegistry}
use slimx_agent.Engine.Host.{Host, Handler, RunEndHook}
use slimx_agent.Engine.Monad.{Drive}
use slimx_agent.Engine.Drive.{
  Flow, turn, leave, again, stop, Ended, drain, check_wall, check_budget, budget_exhausted_reason,
  after_step, execute, park, record_approval, approval_gate, pause_for_budget, after_budget,
  budget_gate, refuse, after_permission, permission_gate, already_failed, visit, take_step,
  one_pass, completion, next_pass, passes, drive,
}
use slimx_agent.Engine.Stream.Keeps.{Invariant, Keeps, keeps_rules, Keeps-pure, Keeps-bind}
use slimx_agent.Engine.Stream.Steps.{
  skip_step-Keeps, gate_for_approval-Keeps, call_hook-Keeps, fail_run-Keeps,
  run_failure_reported-Keeps, run_step-Keeps,
}

module _ (i : Invariant) (h : Host) where
  check_wall-Keeps :
      (view : Run) (started : ℕ) (max_wall : Option ℕ)
      → Keeps i (check_wall h view started max_wall)
  unfolding check_wall
  check_wall-Keeps view started none = Keeps-pure i none
  check_wall-Keeps view started (some max_wall) = search keeps_rules

  check_budget-Keeps :
      (view : Run) (started : ℕ) (reason : Option String)
      → Keeps i (check_budget h view started reason)
  unfolding check_budget
  check_budget-Keeps view started none = check_wall-Keeps view started _
  check_budget-Keeps view started (some reason) = Keeps-pure i (some reason)

  budget_exhausted_reason-Keeps :
      (view : Run) (steps : List Step) (started : ℕ)
      → Keeps i (budget_exhausted_reason h view steps started)
  unfolding budget_exhausted_reason
  budget_exhausted_reason-Keeps view steps started = check_budget-Keeps view started _

  module _ (registry : ToolRegistry (Handler h.World)) (hook : Option (RunEndHook h.World))
      (run : Run) (drains : Keeps i (drain h run)) where
    ruleset drive_rules = (
      keeps_rules, skip_step-Keeps, gate_for_approval-Keeps, call_hook-Keeps, fail_run-Keeps,
      run_failure_reported-Keeps, run_step-Keeps, budget_exhausted_reason-Keeps,
    )

    after_step-Keeps : (ran : Step) → Keeps i (after_step h registry hook run ran)
    unfolding after_step
    after_step-Keeps ran = search drive_rules

    execute-Keeps : (step : Step) → Keeps i (execute h registry hook run step)
    unfolding execute
    execute-Keeps step = search (drive_rules, after_step-Keeps)

    park-Keeps : (step : Step) (reason : String) → Keeps i (park h registry hook run step reason)
    unfolding park
    park-Keeps step reason = search drive_rules

    record_approval-Keeps :
        (step : Step) (view : Run) (tier : Option Tier)
        → Keeps i (record_approval h registry hook run step view tier)
    unfolding record_approval
    record_approval-Keeps step view tier = search drive_rules

    approval_gate-Keeps :
        (step : Step) (view : Run) → Keeps i (approval_gate h registry hook run step view)
    unfolding approval_gate
    approval_gate-Keeps step view =
        search (drive_rules, park-Keeps, record_approval-Keeps, execute-Keeps)

    after_budget-Keeps :
        (step : Step) (view : Run) (reason : Option String)
        → Keeps i (after_budget h registry hook run step view reason)
    unfolding after_budget pause_for_budget
    after_budget-Keeps step view none = approval_gate-Keeps step view
    after_budget-Keeps step view (some reason) = search drive_rules

    budget_gate-Keeps :
        (step : Step) (view : Run) (steps : List Step) (started : ℕ)
        → Keeps i (budget_gate h registry hook run step view steps started)
    unfolding budget_gate
    budget_gate-Keeps step view steps started = search (drive_rules, after_budget-Keeps)

    after_permission-Keeps :
        (step : Step) (view : Run) (steps : List Step) (started : ℕ) (reason : Option String)
        → Keeps i (after_permission h registry hook run step view steps started reason)
    unfolding after_permission refuse
    after_permission-Keeps step view steps started none = budget_gate-Keeps step view steps started
    after_permission-Keeps step view steps started (some reason) = search drive_rules

    permission_gate-Keeps :
        (step : Step) (view : Run) (steps : List Step) (started : ℕ)
        → Keeps i (permission_gate h registry hook run step view steps started)
    unfolding permission_gate
    permission_gate-Keeps step view steps started =
        search (drive_rules, after_permission-Keeps, budget_gate-Keeps)

    already_failed-Keeps : (step : Step) → Keeps i (already_failed h registry hook run step)
    unfolding already_failed
    already_failed-Keeps step = search drive_rules depth 10

    visit-Keeps :
        (step : Step) (view : Run) (steps : List Step) (started : ℕ)
        → Keeps i (visit h registry hook run step view steps started)
    unfolding visit
    visit-Keeps step view steps started =
        search (drive_rules, already_failed-Keeps, permission_gate-Keeps)

    take_step-Keeps :
        (view : Run) (steps : List Step) (started : ℕ) (found : Option Step)
        → Keeps i (take_step h registry hook run view steps started found)
    unfolding take_step
    take_step-Keeps view steps started none = Keeps-pure i leave
    take_step-Keeps view steps started (some step) = search (drive_rules, visit-Keeps)

    one_pass-Keeps : (started : ℕ) → Keeps i (one_pass h registry hook run started)
    unfolding one_pass
    one_pass-Keeps started = search (drive_rules, take_step-Keeps)

    completion-Keeps : Keeps i (completion h registry hook run)
    unfolding completion
    completion-Keeps = search drive_rules depth 10

    next_pass-Keeps :
        (rest : Drive h Ended) (flow : Flow)
        → Keeps i rest
        → Keeps i (next_pass h registry hook run rest flow)
    unfolding next_pass
    next_pass-Keeps rest (turn again) k = k
    next_pass-Keeps rest (turn stop) k = Keeps-pure i _
    next_pass-Keeps rest leave k = search (drive_rules, completion-Keeps)

    passes-Keeps : (fuel started : ℕ) → Keeps i (passes h registry hook run fuel started)
    unfolding passes
    passes-Keeps zero started = Keeps-pure i _
    passes-Keeps (suc fuel) started =
        Keeps-bind i _ _ (one_pass-Keeps started)
          (λ flow. next_pass-Keeps _ flow (passes-Keeps fuel started))

    pub drive-Keeps : (fuel : ℕ) → Keeps i (drive h registry hook run fuel)
    unfolding drive
    drive-Keeps fuel = search (drive_rules, passes-Keeps)
