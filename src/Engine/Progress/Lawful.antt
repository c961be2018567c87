-- ===== src/Engine/Progress/Lawful.antt =====
-- slimx_agent/engine.py: what a host must keep to for a drive to end: a store that holds what is
-- written, and handlers that leave the other steps alone.
use slimx_agent.Prelude.{◌≤◌, ◌<◌, String, ◌≡◌, Bool, Option, some, List}
use slimx_agent.Json.{ℤ}
use slimx_agent.Store.{Run, Step, Payload, Patch}
use slimx_agent.Outcomes.{ok, raised, step_action_prepared}
use slimx_agent.Tools.{ToolRegistry, resolve}
use slimx_agent.Engine.Host.{Host, Handler}
use slimx_agent.Engine.Progress.Updates.{update, Alike}
use slimx_agent.Engine.Progress.Rules.{View, Same}

-- A call of a handler: it may move its own step between states, and where it prepares an action anew
-- it uses up one preparation.
pub record HandlesWell {W : Type 0} (v : View W) (handler : Handler W) (run : Run) : Type 0 where
  pub alike :
      (step : Step) (w : W) → Alike step.id (v.steps_of (handler run step w).1) (v.steps_of w)
  pub left_le : (step : Step) (w : W) → v.preparations (handler run step w).1 ≤ v.preparations w
  pub prepares :
      (step : Step) (w : W) (text : String)
      → (handler run step w).0 ≡ raised (step_action_prepared text)
      → v.preparations (handler run step w).1 < v.preparations w

-- A write that answered has stored the state, and answers with the step.
pub record Writes {W : Type 0} (v : View W) (id status : String) (answer : Step) (w w' : W)
    : Type 0 where
  pub stored : v.steps_of w' ≡ update id status (v.steps_of w)
  pub left : v.preparations w' ≡ v.preparations w
  pub answered : answer.status ≡ status

pub record Lawful (h : Host) (registry : ToolRegistry (Handler h.World)) (run : Run) : Type 0 where
  pub view : View h.World
  pub get_run : (w : h.World) → Same view w (h.get_run run.id w).1
  pub get_steps : (w : h.World) → Same view w (h.get_steps run.id w).1
  pub steps_read :
      (w : h.World) (steps : List Step)
      → (h.get_steps run.id w).0 ≡ ok steps
      → steps ≡ view.steps_of w
  pub get_step : (id : String) (w : h.World) → Same view w (h.get_step id w).1
  pub set_run_status :
      (status : String) (w : h.World) → Same view w (h.set_run_status run status w).1
  pub set_step_state :
      (id status : String) (error : Patch String) (refs : Patch Payload) (w : h.World)
      (answer : Step)
      → (h.set_step_state id status error refs w).0 ≡ ok answer
      → Writes view id status answer w (h.set_step_state id status error refs w).1
  pub append_event :
      (type : String) (step_id : Option String) (payload : Option Payload) (commit : Bool)
      (w : h.World)
      → Same view w (h.append_event run.id type step_id payload commit w).1
  pub next_sequence : (w : h.World) → Same view w (h.next_sequence run.id w).1
  pub drained_events : (after : ℤ) (w : h.World) → Same view w (h.drained_events run.id after w).1
  pub now : (w : h.World) → Same view w (h.now w).1
  pub handlers :
      (type : String) (handler : Handler h.World)
      → resolve type registry ≡ some handler
      → HandlesWell view handler run
