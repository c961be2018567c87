-- ===== src/HttpTools/Meaning.antt =====
-- slimx_agent/http_tools.py: what the answer of an invocation means, apart from how the handler finds
-- it out.
use slimx_agent.Prelude.{String, ◌≡◌, ◌≢◌, strip, ◌⊎◌, true, Option, none, some, [], ◌∷◌, contains}
use slimx_agent.Json.{Json, null, str, obj, Fields, get, fields_of}
use slimx_agent.Store.{Payload}
use slimx_agent.Outcomes.{
  step_not_applicable, step_action_prepared, step_execution_error, Raise, Result, ok, raised,
  step_outcome_unknown, HostFailure, host_error, host_unavailable, host_protocol_error,
}
use slimx_agent.HostClient.Once.{IsHostError}

-- The references as they stand in an envelope.
abbrev pub refs_json : Option Payload → Json
refs_json none = null
refs_json (some refs) = obj (fields_of refs)

-- An outcome that nobody observed.
pub record IsUnknown (r : Result (Option Payload)) : Type 0 where
  pub text : String
  pub cause : Option HostFailure
  pub at : r ≡ raised (step_outcome_unknown text cause)

-- The host answered with an outcome of the contract.
pub record IsKnown (result : Fields) : Type 0 where
  pub outcome : String
  pub says : get "outcome" result ≡ str outcome
  pub known : contains ("completed" ∷ "skipped" ∷ "prepared" ∷ "failed" ∷ []) outcome ≡ true

-- The text that a field of the envelope gives, if it is one that is not blank, or else the default.
pub record Says (v : Json) (default text : String) : Type 0 where
  pub given : (s : String) → v ≡ str s → strip s ≢ "" → text ≡ s
  pub missing : ((s : String) → v ≡ str s → strip s ≡ "") → text ≡ default

-- How an envelope that names an outcome of the contract settles its step.
pub data Settles (result : Fields) (r : Result (Option Payload)) : Type 0 where
  completed :
      (refs : Option Payload)
      → get "outcome" result ≡ str "completed"
      → get "output_refs" result ≡ refs_json refs
      → r ≡ ok refs
      → Settles result r
  skipped :
      (text : String)
      → get "outcome" result ≡ str "skipped"
      → Says (get "reason" result) "step not applicable" text
      → r ≡ raised (step_not_applicable text)
      → Settles result r
  readied :
      (text : String)
      → get "outcome" result ≡ str "prepared"
      → Says (get "reason" result) "a new action generation was prepared" text
      → r ≡ raised (step_action_prepared text)
      → Settles result r
  failed :
      (text : String)
      → get "outcome" result ≡ str "failed"
      → Says (get "error" result) "step failed on the host" text
      → r ≡ raised (step_execution_error text)
      → Settles result r

-- An envelope that settles nothing: it names no outcome of the contract, or it completes the step with
-- references that are neither an object nor null.
pub record IsUnclear (result : Fields) : Type 0 where
  pub unclear :
      ¬ IsKnown result
      ⊎ ((get "outcome" result ≡ str "completed")
          × ((refs : Option Payload) → get "output_refs" result ≢ refs_json refs))

-- A host error, and what it says of the failure.
abbrev pub Carries : Raise → HostFailure → Type 0
Carries e f = (e ≡ host_error f) ⊎ (e ≡ host_unavailable f) ⊎ (e ≡ host_protocol_error f)

-- What the answer of the callback means for its step.
pub data Means (answer : Result Fields) (r : Result (Option Payload)) : Type 0 where
  settled : (result : Fields) → answer ≡ ok result → Settles result r → Means answer r
  unclear :
      (result : Fields) (text : String)
      → answer ≡ ok result
      → IsUnclear result
      → r ≡ raised (step_outcome_unknown text none)
      → Means answer r
  lost :
      (e : Raise) (f : HostFailure) (text : String)
      → answer ≡ raised e
      → Carries e f
      → r ≡ raised (step_outcome_unknown text (some f))
      → Means answer r
  broken : (e : Raise) → answer ≡ raised e → ¬ IsHostError e → r ≡ raised e → Means answer r
