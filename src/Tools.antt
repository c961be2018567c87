-- ===== src/Tools.antt =====
-- slimx_agent/tools.py: the tool registry. It is the one way from a step type to a handler.
pub mod Registered
use slimx_agent.Prelude.{
  String, ◌<>◌, Option, List, [], ◌∷◌, ◌++◌, if◌then◌else◌, lookup, repr, is_some,
}
use slimx_agent.Outcomes.{Result, ok, raised, value_error}

-- The handlers by step type, in the order of their registration.
abbrev pub ToolRegistry {ℓ} : Type ℓ → Type ℓ
ToolRegistry H = List (String × H)

module _ {ℓ} {H : Type ℓ} where
  -- A duplicate step type raises `ValueError`.
  unfoldable pub register : String → H → ToolRegistry H → Result (ToolRegistry H)
  register step_type handler handlers =
      if is_some (lookup step_type handlers)
      then raised
          (value_error ("Tool handler for " <> (repr step_type <> " is already registered")))
      else ok (handlers ++ (step_type, handler) ∷ [])

  unfoldable pub resolve : String → ToolRegistry H → Option H
  resolve step_type handlers = lookup step_type handlers

  unfoldable pub step_types : ToolRegistry H → List String
  step_types [] = []
  step_types ((t, _) ∷ handlers) = t ∷ step_types handlers
