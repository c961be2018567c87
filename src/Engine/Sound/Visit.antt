-- ===== src/Engine/Sound/Visit.antt =====
-- slimx_agent/engine.py: one step of the loop: every gate, in its order, and what follows the
-- step that ran.
use slimx_agent.Prelude.{
  [], ◌∷◌, eq_iff, arith, find_first, ◌||◌, ◌==◌, ℕ, none, true, false, contains, some, ◌≡◌, String,
  List, refl, Option,
}
use slimx_agent.Engine.Drive.{
  visit, after_budget, after_permission, can_be_skipped, awaits_gate, permission_gate, refuse,
  budget_gate, approval_gate, record_approval, park, after_step, execute, pause_for_budget,
  already_failed,
}
use slimx_agent.Engine.Sound.Calls.{
  budget_exhausted_reason-Triple, Sound, Here, KeepsHere, append_event-Keeps, set_run_status-Keeps,
  drain-Keeps, call_hook-Keeps, run_failure_reported-Keeps,
}
use slimx_agent.Engine.Gates.{is_open, halted, fresh, next_step, run_gate, steps_budget_reason}
use slimx_agent.Engine.Triple.{
  Triple-weaken, Triple-if, Triple-raise, Triple, Triple-bind, Assertion, keeps_rules,
}
use slimx_agent.Engine.Log.{blocked, Passed}
use slimx_agent.Engine.Sound.Dispatch.{skip_step-Triple, move-Keeps, run_step-Triple}
use slimx_agent.Policies.{permission_block_reason, Tier}
use slimx_agent.Store.{unset, Run, Step}
use slimx_agent.Engine.Monad.{set_step_state, set_run_status}
use slimx_agent.Engine.Step.{gate_for_approval, fail_run}
use slimx_agent.Tools.{ToolRegistry}
use slimx_agent.Engine.Host.{Host, Handler, RunEndHook}
use slimx_agent.Contracts.{step_statuses}

next_step-is_open :
    (steps : List Step) {step : Step} → next_step steps ≡ some step → is_open step ≡ true
unfolding next_step find_first
next_step-is_open [] e = cc
next_step-is_open (s ∷ steps) {step} e = ground (arith, next_step-is_open steps {step = step})

-- Of the known statuses of an open step, one that is not `failed` waits or runs.
waits_or_runs :
    (step : Step)
    → contains step_statuses step.status ≡ true
    → is_open step ≡ true
    → (step.status == "failed") ≡ false
    → (can_be_skipped step.status || (step.status == "running")) ≡ true
unfolding contains
waits_or_runs step known opened not_failed = ground (
  arith,
  eq_iff step.status "failed",
  eq_iff "failed" step.status,
  eq_iff step.status "running",
  eq_iff "running" step.status,
)

module _ (h : Host) (registry : ToolRegistry (Handler h.World)) (run : Run) (answer : Option Run)
    (steps : List Step) where
  abbrev Now : Assertion
  Now = Here h registry run answer steps

  set_failed-Keeps : (r : Run) → KeepsHere h registry run answer steps (set_run_status h r "failed")
  set_failed-Keeps r = set_run_status-Keeps h registry run answer steps r "failed" refl

  set_paused-Keeps : (r : Run) → KeepsHere h registry run answer steps (set_run_status h r "paused")
  set_paused-Keeps r = set_run_status-Keeps h registry run answer steps r "paused" refl

  set_awaiting-Keeps :
      (r : Run) → KeepsHere h registry run answer steps (set_run_status h r "awaiting_approval")
  set_awaiting-Keeps r = set_run_status-Keeps h registry run answer steps r "awaiting_approval" refl

  ruleset call_rules = (
    keeps_rules, append_event-Keeps, set_failed-Keeps, set_paused-Keeps, set_awaiting-Keeps,
    drain-Keeps, call_hook-Keeps, run_failure_reported-Keeps,
  )

  module _ (hook : Option (RunEndHook h.World)) where
    fail_run-Keeps : (id : String) → KeepsHere h registry run answer steps (fail_run h hook run id)
    unfolding fail_run
    fail_run-Keeps id = search call_rules

    after_step-Keeps :
        (ran : Step) → KeepsHere h registry run answer steps (after_step h registry hook run ran)
    unfolding after_step
    after_step-Keeps ran = search (call_rules, fail_run-Keeps)

    execute-Keeps :
        (step : Step)
        → Passed run answer steps step
        → KeepsHere h registry run answer steps (execute h registry hook run step)
    unfolding execute
    execute-Keeps step passed = search (call_rules, run_step-Triple, after_step-Keeps)

    already_failed-Keeps :
        (step : Step)
        → KeepsHere h registry run answer steps (already_failed h registry hook run step)
    unfolding already_failed
    already_failed-Keeps step = search (call_rules, fail_run-Keeps)

    pause_for_budget-Keeps :
        (reason : String)
        → KeepsHere h registry run answer steps (pause_for_budget h registry hook run reason)
    unfolding pause_for_budget
    pause_for_budget-Keeps reason = search call_rules depth 8

    module _ (step : Step) (chosen : next_step steps ≡ some step) where
      gate_for_approval-Keeps :
          (reason : String)
          → KeepsHere h registry run answer steps (gate_for_approval h run step reason)
      unfolding gate_for_approval contains
      gate_for_approval-Keeps reason =
          Triple-bind (λ _. Now)
            (move-Keeps h registry run answer steps step "awaiting_approval" chosen refl)
            (λ _. search call_rules)

      park-Keeps :
          (reason : String)
          → KeepsHere h registry run answer steps (park h registry hook run step reason)
      unfolding park
      park-Keeps reason = search (call_rules, gate_for_approval-Keeps)

      approve-Keeps :
          KeepsHere h registry run answer steps (set_step_state h step.id "approved" unset unset)
      unfolding contains
      approve-Keeps = move-Keeps h registry run answer steps step "approved" chosen refl

      record_approval-Keeps :
          (view : Run) (tier : Option Tier)
          → KeepsHere h registry run answer steps
              (record_approval h registry hook run step view tier)
      unfolding record_approval
      record_approval-Keeps view tier = search (call_rules, approve-Keeps)

      -- The facts that hold before the approval gate.
      record Permitted : Type 0 where
        live : halted answer ≡ false
        known : contains step_statuses step.status ≡ true
        permitted : permission_block_reason step (fresh answer run) ≡ none

      approval_gate-Keeps :
          Permitted
          → steps_budget_reason (fresh answer run) steps ≡ none
          → KeepsHere h registry run answer steps
              (approval_gate h registry hook run step (fresh answer run))
      unfolding approval_gate
      approval_gate-Keeps p budget =
          Triple-if (awaits_gate step.status)
            (λ waits.
              Triple-if (run_gate step (fresh answer run)).2 (λ stops. park-Keeps _)
                (λ clear.
                  Triple-bind (λ _. Now) (record_approval-Keeps (fresh answer run) _)
                    (λ _. execute-Keeps step (record {
                      live = p.live;
                      chosen = chosen;
                      known = p.known;
                      permitted = p.permitted;
                      in_budget = budget;
                      cleared = λ _. clear;
                    }))))
            (λ waits_not. execute-Keeps step (record {
              live = p.live;
              chosen = chosen;
              known = p.known;
              permitted = p.permitted;
              in_budget = budget;
              cleared = λ waits. cc;
            }))

      budget_gate-Keeps :
          Permitted
          → (started : ℕ)
          → KeepsHere h registry run answer steps
              (budget_gate h registry hook run step (fresh answer run) steps started)
      unfolding budget_gate
      budget_gate-Keeps p started =
          Triple-bind _
            (budget_exhausted_reason-Triple h registry run answer steps (fresh answer run) started)
            after
        where
          after :
              (o : Option String)
              → Triple
                  (λ t. Now t × (o ≡ none → steps_budget_reason (fresh answer run) steps ≡ none))
                  (after_budget h registry hook run step (fresh answer run) o)
                  (λ _. Now)
                  (Sound h registry run)
          after (some reason) =
              Triple-weaken Now (λ _. Now) (pause_for_budget-Keeps reason) (λ t q. q.0) (λ a t q. q)
          after none = record { at = λ s q. (approval_gate-Keeps p (q.1 refl)).at s q.0 }

      refuse-Keeps :
          (reason : String)
          → permission_block_reason step (fresh answer run) ≡ some reason
          → KeepsHere h registry run answer steps (refuse h registry hook run step reason)
      unfolding refuse
      refuse-Keeps reason denied =
          Triple-if (can_be_skipped step.status)
            (λ waiting.
              Triple-bind (λ _. Now)
                (skip_step-Triple h registry run answer steps Now step.id step.type reason (λ t q. (
                  q,
                  blocked step reason (rw q.steps_eq chosen) refl waiting (rw q.answer_eq denied)
                      refl,
                )))
                (λ _. search call_rules))
            (λ running. Triple-raise _ (λ t q. q.sound))

      -- A step that is open and has not failed waits, or was left running.
      permission_gate-Keeps :
          halted answer ≡ false
          → contains step_statuses step.status ≡ true
          → (step.status == "failed") ≡ false
          → (started : ℕ)
          → KeepsHere h registry run answer steps
              (permission_gate h registry hook run step (fresh answer run) steps started)
      unfolding permission_gate
      permission_gate-Keeps live known not_failed started =
          Triple-if (can_be_skipped step.status || (step.status == "running"))
            (λ gated. after (permission_block_reason step (fresh answer run)) refl)
            (λ other. absurd (
              ground (arith, waits_or_runs step known (next_step-is_open steps chosen) not_failed)))
        where
          after :
              (o : Option String)
              → permission_block_reason step (fresh answer run) ≡ o
              → KeepsHere h registry run answer steps
                  (after_permission h registry hook run step (fresh answer run) steps started o)
          after none permitted =
              budget_gate-Keeps (record { live = live; known = known; permitted = permitted })
                started
          after (some reason) denied = refuse-Keeps reason denied

      pub visit-Keeps :
          halted answer ≡ false
          → (started : ℕ)
          → KeepsHere h registry run answer steps
              (visit h registry hook run step (fresh answer run) steps started)
      unfolding visit
      visit-Keeps live started =
          Triple-if (contains step_statuses step.status)
            (λ known.
              Triple-if (step.status == "failed") (λ _. already_failed-Keeps step)
                (λ not_failed. permission_gate-Keeps live known not_failed started))
            (λ _. Triple-raise _ (λ t q. q.sound))
