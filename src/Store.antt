-- ===== src/Store.antt =====
-- slimx_agent/store.py: the views of a run and of a step, and the durable events.
-- An identity is its text: the engine compares identities as `str(id)` and passes them on unread.
use slimx_agent.Prelude.{String, Bool, Option, List}
use slimx_agent.Json.{ℤ, Json}

-- `RunView`, with the optional inputs that the engine reads by `getattr`; an absent one is `null`.
-- The grant and pre-approval values are untrusted, and so of any shape.
pub record Run : Type 0 where
  pub id : String
  pub status : String
  pub approval_policy : Option String
  pub auto_approve : Bool
  pub allowed_tools_json : Json
  pub budget_max_steps : Json
  pub budget_max_wall_seconds : Json
  pub preapproved_tools : Json

-- `StepView`
pub record Step : Type 0 where
  pub id : String
  pub type : String
  pub title : String
  pub status : String
  pub requires_approval : Bool

-- A payload or a set of output references: small JSON values by key.
abbrev pub Payload : Type 0
Payload = List (String × Json)

-- The entries of an `EventPayload` that the engine reads.
pub record Event : Type 0 where
  pub sequence : ℤ
  pub type : String
  pub agent_step_id : String

-- A field of a write: left as it is (`UNSET`), or replaced, where `none` clears it.
pub data Patch (A : Type 0) : Type 0 where
  unset : Patch A
  put : Option A → Patch A
