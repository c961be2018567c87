-- ===== src/Planning/Repair.antt =====
-- slimx_agent/planning.py, `repair_plan_data`: the salvage of a small model's plan.
use slimx_agent.Prelude.{
  ℕ, zero, suc, String, ◌<>◌, ◌==◌, Bool, false, List, [], ◌∷◌, if◌then◌else◌, contains, strip,
  clip, show,
}
use slimx_agent.Contracts.{allowed_step_types}
use slimx_agent.Json.{
  Json, str, arr, obj, Items, nil, cons, Fields, get, set, of_strings, strings_of,
}
use slimx_agent.Json.Text.{truthy, py_str}

-- `str(value or "").strip()`
unfoldable pub text_of : Json → String
text_of v = if truthy v then strip (py_str v) else ""

unfoldable pub is_allowed_type : Json → Bool
is_allowed_type (str t) = contains allowed_step_types t
is_allowed_type _ = false

abbrev pub aliases : List String
aliases = "description" ∷ "prompt" ∷ "task" ∷ "details" ∷ []

-- The first alias that holds text becomes the instruction.
unfoldable pub adopt : List String → Fields → Fields
adopt [] raw = raw
adopt (alias ∷ rest) raw =
    let value = text_of (get alias raw) in
    if value == "" then adopt rest raw else set "instruction" (str value) raw

unfoldable pub with_instruction : Fields → Fields
unfolding adopt
with_instruction raw = if text_of (get "instruction" raw) == "" then adopt aliases raw else raw

-- `raw.get("title") or raw.get("name")`
abbrev pub title_or_name : Fields → Json
title_or_name raw = if truthy (get "title" raw) then get "title" raw else get "name" raw

-- `instruction[:60] or f"Step {n}"`
abbrev pub or_step : String → ℕ → String
or_step text n = if text == "" then "Step " <> show n else text

-- The title, for the step after `done` repaired ones.
unfoldable pub with_title : ℕ → Fields → Fields
with_title done raw =
    let title = text_of (title_or_name raw) in
    if title == ""
    then set "title" (str (or_step (clip 60 (text_of (get "instruction" raw))) (suc done))) raw
    else if truthy (get "title" raw)
    then raw
    else set "title" (str title) raw

unfoldable pub repair_step : ℕ → Fields → Fields
unfolding with_title with_instruction
repair_step done raw = with_title done (with_instruction raw)

-- The loop over the steps; `done` counts the repaired ones.
unfoldable pub repair_steps : ℕ → Items → Items
unfolding repair_step is_allowed_type
repair_steps done nil = nil
repair_steps done (cons (obj raw) vs) =
    let dropped = repair_steps done vs in
    let kept = cons (obj (repair_step done raw)) (repair_steps (suc done) vs) in
    if is_allowed_type (get "type" raw) then kept else dropped
repair_steps done (cons _ vs) = repair_steps done vs

abbrev pub texts_in : Json → Items
texts_in (arr vs) = of_strings (strings_of vs)
texts_in _ = nil

abbrev pub steps_in : Json → Items
steps_in (arr vs) = vs
steps_in _ = nil

unfoldable pub with_assumptions : Fields → Fields
with_assumptions fs = set "assumptions" (arr (texts_in (get "assumptions" fs))) fs

unfoldable pub with_steps : Fields → Fields
unfolding repair_steps
with_steps fs = set "steps" (arr (repair_steps zero (steps_in (get "steps" fs)))) fs

unfoldable pub repair_plan_data : Json → Json
unfolding with_assumptions with_steps
repair_plan_data (obj fs) = obj (with_steps (with_assumptions fs))
repair_plan_data value = value
