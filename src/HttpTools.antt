-- ===== src/HttpTools.antt =====
-- slimx_agent/http_tools.py: the remote registry. Every step type's handler invokes the step on the
-- host, and turns the outcome envelope back into the engine's outcomes.
pub mod Registry
pub mod Meaning
pub mod Envelope
pub mod Drives
use slimx_agent.Prelude.{
  String, ◌<>◌, ◌==◌, Bool, true, false, Option, none, some, List, [], ◌∷◌, if◌then◌else◌, strip,
}
use slimx_agent.Contracts.{allowed_step_types}
use slimx_agent.Json.{Json, null, str, obj, Fields, entries, get}
use slimx_agent.Store.{Run, Step, Payload}
use slimx_agent.Outcomes.{
  HostFailure, Raise, host_error, host_unavailable, host_protocol_error, step_outcome_unknown,
  step_not_applicable, step_action_prepared, step_execution_error, text_of, Result, ok, raised,
  ◌>>=◌,
}
use slimx_agent.Tools.{ToolRegistry, register}
use slimx_agent.Engine.Host.{Handler}
use slimx_agent.HostClient.Profile.{RunProfile}
use slimx_agent.HostClient.Transport.{HttpClient, HostClient}
use slimx_agent.HostClient.Operations.{invoke_step}

-- `_message`
unfoldable pub message : Json → String → String
message (str s) default = if strip s == "" then default else s
message _ default = default

unfoldable pub refs_of : String → Json → Result (Option Payload)
refs_of step_id null = ok none
refs_of step_id (obj fs) = ok (some (entries fs))
refs_of step_id _ = raised (
    step_outcome_unknown ("step " <> (step_id <> " completion carried malformed output references"))
      none)

abbrev pub unrecognized : String → Raise
unrecognized step_id =
    step_outcome_unknown ("step " <> (step_id <> " returned an unrecognized invocation outcome"))
      none

-- The handler's branches on the outcome.
unfoldable pub by_outcome : String → Fields → Json → Result (Option Payload)
unfolding refs_of message
by_outcome step_id result (str outcome) =
    if outcome == "completed"
    then refs_of step_id (get "output_refs" result)
    else if outcome == "skipped"
    then raised (step_not_applicable (message (get "reason" result) "step not applicable"))
    else if outcome == "prepared"
    then raised (
        step_action_prepared (message (get "reason" result) "a new action generation was prepared"))
    else if outcome == "failed"
    then raised (step_execution_error (message (get "error" result) "step failed on the host"))
    else raised (unrecognized step_id)
by_outcome step_id result _ = raised (unrecognized step_id)

-- What an envelope says of the step.
unfoldable pub outcome_of : String → Fields → Result (Option Payload)
unfolding by_outcome
outcome_of step_id result = by_outcome step_id result (get "outcome" result)

-- The cause of an exception that is a `HostError`.
unfoldable pub host_failure : Raise → Option HostFailure
host_failure (host_error f) = some f
host_failure (host_unavailable f) = some f
host_failure (host_protocol_error f) = some f
host_failure _ = none

-- `except HostError`
unfoldable pub unobserved : String → Raise → Option HostFailure → Raise
unobserved step_id e none = e
unobserved step_id e (some f) =
    step_outcome_unknown
      ("step " <> (step_id <> (" has no observed invocation outcome (" <> (text_of e <> ")"))))
      (some f)

unfoldable pub envelope : String → Result Fields → Result (Option Payload)
unfolding outcome_of unobserved host_failure
envelope step_id (ok result) = outcome_of step_id result
envelope step_id (raised e) = raised (unobserved step_id e (host_failure e))

module _ (http : HttpClient) (host : HostClient) (profile : RunProfile) where
  unfoldable pub remote_handler : Handler http.World
  unfolding envelope
  remote_handler run step w =
      let (answer, w') = invoke_step http host run.id step.id profile w in
      (envelope step.id answer, w')

module _ {H : Type 0} (handler : H) where
  unfoldable pub register_all : List String → ToolRegistry H → Result (ToolRegistry H)
  register_all [] registry = ok registry
  register_all (t ∷ types) registry = do
    registry' ← register t handler registry
    register_all types registry'

  abbrev types_or_all : Option (List String) → List String
  types_or_all none = allowed_step_types
  types_or_all (some types) = types

  -- `build_remote_registry(step_types)`, over the one handler.
  unfoldable pub build_remote_registry : Option (List String) → Result (ToolRegistry H)
  unfolding register_all
  build_remote_registry step_types = register_all (types_or_all step_types) []
