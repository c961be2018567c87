-- ===== src/Planning/Validate.antt =====
-- slimx_agent/planning.py: `AgentPlan`, `AgentPlanStep` and `validate_plan`. pydantic's reading of the
-- declared fields, with its coercions, is a parameter; the validators are the source's.
use slimx_agent.Prelude.{
  ℕ, String, ◌==◌, ◌≤◌, ◌≡◌, refl, subst, ◌↔◌, ◌≢◌, Bool, true, false, not, ◌&&◌, Option, none,
  some, List, [], ◌∷◌, if◌then◌else◌, contains, strip, length, all, leb, arith, eq_iff, Bool-cases,
  inl, inr,
}
use slimx_agent.Contracts.{allowed_step_types}
use slimx_agent.Json.{Json, obj, Fields}

pub record AgentPlanStep : Type 0 where
  pub title : String
  pub type : String
  pub instruction : String
  pub expected_output : String
  pub requires_approval : Bool
  pub input_refs : Option (List (String × List String))
  pub params : Option Fields

pub record AgentPlan : Type 0 where
  pub assumptions : List String
  pub steps : List AgentPlanStep

abbrev pub max_steps : ℕ
max_steps = 12

-- What `validate_plan` gives: a plan, or a `PlanValidationError` with its text.
pub data Validated : Type 0 where
  plan : AgentPlan → Validated
  plan_validation_error : String → Validated

abbrev pub is_model_type : String → Bool
is_model_type t = contains ("model_call" ∷ "compare_models" ∷ []) t

-- `_type_in_allowlist` and `_model_steps_need_an_instruction`
unfoldable pub step_accepted : AgentPlanStep → Bool
step_accepted step =
    contains allowed_step_types step.type
    && not (is_model_type step.type && (strip step.instruction == ""))

-- `_steps_bounded`, after the steps' own validators
unfoldable pub plan_accepted : AgentPlan → Bool
unfolding step_accepted
plan_accepted p =
    all step_accepted p.steps && (leb 1 (length p.steps) && leb (length p.steps) max_steps)

module _ (read : Fields → Option AgentPlan) (describe : Fields → String) where
  abbrev checked : Fields → Option AgentPlan → Validated
  checked fs none = plan_validation_error (describe fs)
  checked fs (some p) = if plan_accepted p then plan p else plan_validation_error (describe fs)

  unfoldable pub validate_plan : Json → Validated
  unfolding plan_accepted
  validate_plan (obj fs) = checked fs (read fs)
  validate_plan _ = plan_validation_error "Planner output was not a JSON object"

-- A step that can be carried out: of a contract type, with an instruction where a model runs it.
pub record IsRunnable (step : AgentPlanStep) : Type 0 where
  pub known : contains allowed_step_types step.type ≡ true
  pub instructed : is_model_type step.type ≡ true → strip step.instruction ≢ ""

abbrev pub AllRunnable : List AgentPlanStep → Type 0
AllRunnable [] = Unit
AllRunnable (s ∷ steps) = IsRunnable s × AllRunnable steps

-- The test, over any list of types.
accepted_iff :
    (known models : Bool) (instruction : String)
    → ((known && not (models && (instruction == ""))) ≡ true)
      ↔ ((known ≡ true) × (models ≡ true → instruction ≢ ""))
accepted_iff false models instruction = ground arith
accepted_iff true false instruction = ground arith
accepted_iff true true instruction = ground (arith, eq_iff instruction "")

accepted-IsRunnable : (s : AgentPlanStep) → (step_accepted s ≡ true) ↔ IsRunnable s
unfolding step_accepted
accepted-IsRunnable s =
    let (there, back) =
      accepted_iff (contains allowed_step_types s.type) (is_model_type s.type)
        (strip s.instruction) in
    (
      λ h. record { known = (there h).0; instructed = (there h).1 },
      λ r. back (r.known, r.instructed),
    )

accepted-AllRunnable :
    (steps : List AgentPlanStep) → (all step_accepted steps ≡ true) ↔ AllRunnable steps
accepted-AllRunnable [] = (λ h. tt, λ h. refl)
accepted-AllRunnable (s ∷ steps) =
    let (there, back) = accepted-IsRunnable s in
    let (all_there, all_back) = accepted-AllRunnable steps in
    (
      λ h.
          let (first, rest) = both (step_accepted s) (all step_accepted steps) h in
          (there first, all_there rest),
      λ h. rw (back h.0, all_back h.1) refl,
    )
  where
    both : (a b : Bool) → (a && b) ≡ true → (a ≡ true) × (b ≡ true)
    both a b h = ground arith

plan_inj : (p q : AgentPlan) → plan p ≡ plan q → p ≡ q
plan_inj p q e = cc

parts :
    (q : AgentPlan)
    → plan_accepted q ≡ true
    → (some q ≡ some q) × AllRunnable q.steps × (1 ≤ length q.steps) × (length q.steps ≤ 12)
unfolding plan_accepted
parts q h = (refl, (accepted-AllRunnable q.steps).0 (ground arith), ground arith, ground arith)

module _ (read : Fields → Option AgentPlan) (describe : Fields → String) where
  -- Validation accepts exactly the objects that read as a plan of one to twelve steps which can be
  -- carried out: each of a contract type, with an instruction where a model runs it. It returns that
  -- plan.
  pub validate_plan_iff :
      (fs : Fields) (p : AgentPlan)
      → (validate_plan read describe (obj fs) ≡ plan p)
        ↔ ((read fs ≡ some p) × AllRunnable p.steps × (1 ≤ length p.steps) × (length p.steps ≤ 12))
  unfolding validate_plan plan_accepted
  validate_plan_iff fs p = (
    λ h. taken (read fs) refl h,
    λ h. rw (h.0, (accepted-AllRunnable p.steps).1 h.1) (ground arith),
  )
    where
      taken :
          (o : Option AgentPlan)
          → read fs ≡ o
          → checked read describe fs o ≡ plan p
          → (o ≡ some p) × AllRunnable p.steps × (1 ≤ length p.steps) × (length p.steps ≤ 12)
      taken none e h = cc
      taken (some q) e h = elim (Bool-cases (plan_accepted q)) [
        | inl accepted ↦
            subst
              (λ (p : AgentPlan).
                (some q ≡ some p)
                × AllRunnable p.steps
                × (1 ≤ length p.steps)
                × (length p.steps ≤ 12))
              (plan_inj q p (rw accepted at h)) (parts q accepted)
        | inr refused ↦ cc (rw refused at h)
      ]
