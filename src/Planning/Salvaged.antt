-- ===== src/Planning/Salvaged.antt =====
-- slimx_agent/planning.py, the loop of `repair_plan_data`: which steps stay, and in which order.
use slimx_agent.Prelude.{ℕ, suc, String, ◌==◌, ◌≡◌, ◌≢◌, true, false, Bool-cases, inl, inr}
use slimx_agent.Json.{Json, obj, Items, nil, cons, Fields, get}
use slimx_agent.Planning.Repair.{text_of, is_allowed_type, repair_step, repair_steps}
use slimx_agent.Planning.Steps.{repair_step_keeps}

-- A repaired step differs from the raw one at most in a title and an instruction that said nothing.
pub record Keeps (raw step : Fields) : Type 0 where
  pub others :
      (key : String)
      → ("title" == key) ≡ false
      → ("instruction" == key) ≡ false
      → get key step ≡ get key raw
  pub instruction :
      text_of (get "instruction" raw) ≢ "" → get "instruction" step ≡ get "instruction" raw
  pub title : text_of (get "title" raw) ≢ "" → get "title" step ≡ get "title" raw

-- What is no step of a contract type.
abbrev pub IsNoStep : Json → Type 0
IsNoStep (obj raw) = is_allowed_type (get "type" raw) ≡ false
IsNoStep _ = Unit

-- The steps that come of a list: each object of a contract type in its place, and nothing else.
pub data Salvages : Items → Items → Type 0 where
  empty : Salvages nil nil
  keeps :
      (raw step : Fields) (vs steps : Items)
      → is_allowed_type (get "type" raw) ≡ true
      → Keeps raw step
      → Salvages vs steps
      → Salvages (cons (obj raw) vs) (cons (obj step) steps)
  drops :
      (v : Json) (vs steps : Items) → IsNoStep v → Salvages vs steps → Salvages (cons v vs) steps

repair_step-Keeps : (n : ℕ) (raw : Fields) → Keeps raw (repair_step n raw)
repair_step-Keeps n raw =
    let (others, instruction, title) = repair_step_keeps n raw in
    record { others = others; instruction = instruction; title = title }

pub repair_steps-Salvages : (n : ℕ) (vs : Items) → Salvages vs (repair_steps n vs)
unfolding repair_steps
repair_steps-Salvages n nil = empty
repair_steps-Salvages n (cons (obj raw) vs) = elim (Bool-cases (is_allowed_type (get "type" raw))) [
  | inl allowed ↦ rw allowed (
      keeps raw (repair_step n raw) vs (repair_steps (suc n) vs) allowed (repair_step-Keeps n raw)
        (repair_steps-Salvages (suc n) vs))
  | inr other ↦ rw other (drops (obj raw) vs (repair_steps n vs) other (repair_steps-Salvages n vs))
]
repair_steps-Salvages n (cons v vs) = drops v vs (repair_steps n vs) tt (repair_steps-Salvages n vs)
