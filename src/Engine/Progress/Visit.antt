-- ===== src/Engine/Progress/Visit.antt =====
-- slimx_agent/engine.py: a visit of a step over a lawful store: where the loop goes on, it has
-- come closer to its end.
use slimx_agent.Prelude.{
  ℕ, String, ◌==◌, false, Option, none, some, List, ◌≡◌, eq_iff, ◌≢◌, ◌||◌, ◌&&◌, inl, inr,
  contains, arith,
}
use slimx_agent.Store.{Run, Step, unset}
use slimx_agent.Tools.{ToolRegistry}
use slimx_agent.Policies.{Tier}
use slimx_agent.Policies.Normalize.{Distinct}
use slimx_agent.Engine.Host.{Host, Handler, RunEndHook}
use slimx_agent.Engine.Monad.{pure}
use slimx_agent.Engine.Gates.{next_step, run_gate, is_hard_gated, preapproved_of}
use slimx_agent.Engine.Drive.{
  again, stop, after_step, execute, park, record_approval, approval_gate, awaits_gate,
  pause_for_budget, after_budget, budget_gate, refuse, can_be_skipped, after_permission,
  permission_gate, already_failed, visit,
}
use slimx_agent.Contracts.{step_statuses}
use slimx_agent.Engine.Progress.Updates.{ids}
use slimx_agent.Engine.Progress.Rules.{
  Assertion, Any, Runs, Runs-pure, Runs-raise, Runs-if, Runs-bind, Runs-then, Runs-after,
  Quiet-pure,
}
use slimx_agent.Engine.Progress.Assertions.{Near, Less, Ran, Nearer}
use slimx_agent.Engine.Progress.Dispatch.{
  budget_exhausted_reason-Quiet, append_event-Quiet, drain-Quiet, run_step-Runs, set_near,
  skip_step-Runs,
}
use slimx_agent.Engine.Progress.Lawful.{Lawful}

module _ (h : Host) (registry : ToolRegistry (Handler h.World)) (run : Run)
    (law : Lawful h registry run) where
  module _ (steps : List Step) (left : ℕ) (step : Step) (chosen : next_step steps ≡ some step)
      (distinct : Distinct (ids steps)) where
    abbrev Here : Assertion
    Here = Near steps left step

    abbrev Ahead : Assertion
    Ahead = Less steps left

    module _ (hook : Option (RunEndHook h.World)) where
      -- Whatever came before, a visit may stop.
      stops : (P : Assertion) → Runs law.view P (pure stop) (Nearer steps left)
      stops P = Runs-pure law.view P (Nearer steps left) stop (λ now n p. tt)

      after_step-Runs :
          (ran : Step)
          → Runs law.view
              ((Ran steps left) ran)
              (after_step h registry hook run ran)
              (Nearer steps left)
      unfolding after_step
      after_step-Runs ran =
          Runs-if law.view ((Ran steps left) ran) (Nearer steps left)
            (ran.status == "awaiting_approval") _ _ (λ _. stops ((Ran steps left) ran))
            (λ _.
              Runs-if law.view ((Ran steps left) ran) (Nearer steps left) (ran.status == "failed") _
                _
                (λ _.
                  Runs-after law.view _ (Nearer steps left) _ _
                    (λ _. Runs-after law.view Any (Nearer steps left) _ _ (λ _. stops Any)))
                (λ other.
                  Runs-pure law.view ((Ran steps left) ran) (Nearer steps left) again
                    (λ now n p. going now n other p)))
        where
          clash : ran.status ≡ "failed" → (ran.status == "failed") ≢ false
          clash failed other = ground (arith, eq_iff ran.status "failed")

          going :
              (k : List Step) (n : ℕ)
              → (ran.status == "failed") ≡ false
              → (Ran steps left) ran k n
              → Ahead k n
          going k n other (inl failed) = absurd (clash failed other)
          going k n other (inr less) = less

      execute-Runs : Runs law.view Here (execute h registry hook run step) (Nearer steps left)
      unfolding execute
      execute-Runs =
          Runs-bind law.view Here (Ran steps left) (Nearer steps left) _ _
            (run_step-Runs h registry run law steps left step chosen distinct)
            (λ ran.
              Runs-then law.view ((Ran steps left) ran) (Nearer steps left) _ _
                (drain-Quiet h registry run law) (λ _. after_step-Runs ran))

      park-Runs :
          (reason : String)
          → Runs law.view Here (park h registry hook run step reason) (Nearer steps left)
      unfolding park
      park-Runs reason = Runs-after law.view Here (Nearer steps left) _ _ (λ _.
          Runs-after law.view Any (Nearer steps left) _ _
            (λ _. Runs-after law.view Any (Nearer steps left) _ _ (λ _. stops Any)))

      record_approval-Runs :
          (view : Run) (classification : Option Tier)
          → Runs law.view Here
              (record_approval h registry hook run step view classification)
              (λ _. Here)
      unfolding record_approval
      record_approval-Runs view classification =
          Runs-if law.view Here (λ _. Here)
            (step.requires_approval
              || (step.status == "awaiting_approval")
              || (is_hard_gated classification && contains (preapproved_of view) step.type))
            _ _
            (λ _.
              Runs-bind law.view Here (λ _. Here) (λ _. Here) _ _
                ((set_near h registry run law steps left step chosen distinct) "approved" unset
                  unset)
                (λ _. (append_event-Quiet h registry run law) _ _ _ _ Here))
            (λ _. Quiet-pure law.view tt Here)

      approval_gate-Runs :
          (view : Run)
          → Runs law.view Here (approval_gate h registry hook run step view) (Nearer steps left)
      unfolding approval_gate
      approval_gate-Runs view =
          Runs-if law.view Here (Nearer steps left) (awaits_gate step.status) _ _
            (λ _.
              Runs-if law.view Here (Nearer steps left) (run_gate step view).2 _ _
                (λ _. park-Runs (run_gate step view).1)
                (λ _.
                  Runs-bind law.view Here (λ _. Here) (Nearer steps left) _ _
                    (record_approval-Runs view (run_gate step view).0) (λ _. execute-Runs)))
            (λ _. execute-Runs)

      pause-Runs :
          (reason : String)
          → Runs law.view Here (pause_for_budget h registry hook run reason) (Nearer steps left)
      unfolding pause_for_budget
      pause-Runs reason = Runs-after law.view Here (Nearer steps left) _ _ (λ _.
          Runs-after law.view Any (Nearer steps left) _ _ (λ _.
            Runs-after law.view Any (Nearer steps left) _ _
              (λ _. Runs-after law.view Any (Nearer steps left) _ _ (λ _. stops Any))))

      after_budget-Runs :
          (view : Run) (reason : Option String)
          → Runs law.view Here
              (after_budget h registry hook run step view reason)
              (Nearer steps left)
      unfolding after_budget
      after_budget-Runs view none = approval_gate-Runs view
      after_budget-Runs view (some reason) = pause-Runs reason

      budget_gate-Runs :
          (view : Run) (listed : List Step) (started : ℕ)
          → Runs law.view Here
              (budget_gate h registry hook run step view listed started)
              (Nearer steps left)
      unfolding budget_gate
      budget_gate-Runs view listed started =
          Runs-then law.view Here (Nearer steps left) _ _
            (budget_exhausted_reason-Quiet h registry run law view listed started)
            (after_budget-Runs view)

      refuse-Runs :
          (reason : String)
          → Runs law.view Here (refuse h registry hook run step reason) (Nearer steps left)
      unfolding refuse
      refuse-Runs reason =
          Runs-if law.view Here (Nearer steps left) (can_be_skipped step.status) _ _
            (λ _.
              Runs-bind law.view Here (λ _. Ahead) (Nearer steps left) _ _
                (skip_step-Runs h registry run law steps left step chosen distinct reason)
                (λ _.
                  Runs-then law.view Ahead (Nearer steps left) _ _ (drain-Quiet h registry run law)
                    (λ _. Runs-pure law.view Ahead (Nearer steps left) again (λ now n p. p))))
            (λ _. Runs-raise law.view Here (Nearer steps left) _)

      after_permission-Runs :
          (view : Run) (listed : List Step) (started : ℕ) (reason : Option String)
          → Runs law.view Here
              (after_permission h registry hook run step view listed started reason)
              (Nearer steps left)
      unfolding after_permission
      after_permission-Runs view listed started none = budget_gate-Runs view listed started
      after_permission-Runs view listed started (some reason) = refuse-Runs reason

      permission_gate-Runs :
          (view : Run) (listed : List Step) (started : ℕ)
          → Runs law.view Here
              (permission_gate h registry hook run step view listed started)
              (Nearer steps left)
      unfolding permission_gate
      permission_gate-Runs view listed started =
          Runs-if law.view Here (Nearer steps left)
            (can_be_skipped step.status || (step.status == "running")) _ _
            (λ _. after_permission-Runs view listed started _)
            (λ _. budget_gate-Runs view listed started)

      already_failed-Runs :
          Runs law.view Here (already_failed h registry hook run step) (Nearer steps left)
      unfolding already_failed
      already_failed-Runs = Runs-after law.view Here (Nearer steps left) _ _ (λ _.
          Runs-after law.view Any (Nearer steps left) _ _
            (λ _. Runs-after law.view Any (Nearer steps left) _ _ (λ _. stops Any)))

      pub visit-Runs :
          (view : Run) (listed : List Step) (started : ℕ)
          → Runs law.view Here
              (visit h registry hook run step view listed started)
              (Nearer steps left)
      unfolding visit
      visit-Runs view listed started =
          Runs-if law.view Here (Nearer steps left) (contains step_statuses step.status) _ _
            (λ _.
              Runs-if law.view Here (Nearer steps left) (step.status == "failed") _ _
                (λ _. already_failed-Runs) (λ _. permission_gate-Runs view listed started))
            (λ _. Runs-raise law.view Here (Nearer steps left) _)
