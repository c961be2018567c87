-- ===== src/Outcomes.antt =====
-- slimx_agent/tools.py (the step outcomes), engine.py and host_client.py: the exceptions of the
-- program, and the result of a call that may raise one.
use slimx_agent.Prelude.{
  ◌≡◌, refl, ℕ, String, Bool, true, false, List, [], ◌∷◌, Option, ◌<>◌, show, repr, clip,
}

-- What a `HostError` carries; its two subclasses have synthetic statuses.
pub record HostFailure : Type 0 where
  pub status_code : ℕ
  pub detail : String

-- `other` is any other `Exception`, by its class name and text.
pub data Raise : Type 0 where
  unknown_step_status : String → String → Raise
  running_step_not_permitted : String → String → Raise
  step_execution_error : String → Raise
  step_not_applicable : String → Raise
  step_action_prepared : String → Raise
  step_outcome_unknown : String → Option HostFailure → Raise
  host_error : HostFailure → Raise
  host_unavailable : HostFailure → Raise
  host_protocol_error : HostFailure → Raise
  value_error : String → Raise
  other : String → String → Raise

pub data Result {ℓ} (A : Type ℓ) : Type ℓ where
  ok : A → Result A
  raised : Raise → Result A

-- `type(exc).__name__`
abbrev pub class_name : Raise → String
class_name (unknown_step_status _ _) = "UnknownStepStatus"
class_name (running_step_not_permitted _ _) = "RunningStepNotPermitted"
class_name (step_execution_error _) = "StepExecutionError"
class_name (step_not_applicable _) = "StepNotApplicable"
class_name (step_action_prepared _) = "StepActionPrepared"
class_name (step_outcome_unknown _ _) = "StepOutcomeUnknown"
class_name (host_error _) = "HostError"
class_name (host_unavailable _) = "HostUnavailable"
class_name (host_protocol_error _) = "HostProtocolError"
class_name (value_error _) = "ValueError"
class_name (other name _) = name

host_text : HostFailure → String
host_text f = "agent host error " <> (show f.status_code <> (": " <> f.detail))

-- `str(exc)`
unfoldable pub text_of : Raise → String
unfolding host_text
text_of (unknown_step_status step_id status) =
    "step "
    <> (repr step_id
        <> (" has unrecognized status " <> (repr (clip 64 status) <> "; it was not dispatched")))
text_of (running_step_not_permitted step_id reason) =
    "step "
    <> (repr step_id
        <> (" was left running and is no longer permitted; it was not re-entered: " <> reason))
text_of (step_execution_error text) = text
text_of (step_not_applicable text) = text
text_of (step_action_prepared text) = text
text_of (step_outcome_unknown text _) = text
text_of (host_error f) = host_text f
text_of (host_unavailable f) = host_text f
text_of (host_protocol_error f) = host_text f
text_of (value_error text) = text
text_of (other _ text) = text

-- `_short_error`
unfoldable pub short_error : Raise → String
short_error e = clip 500 (class_name e <> (": " <> text_of e))

infixl 5 ◌>>=◌ ◌>>◌
abbrev pub ◌>>=◌ {ℓ κ} : {X : Type ℓ} {Y : Type κ} → Result X → (X → Result Y) → Result Y
raised e >>= next = raised e
ok x >>= next = next x

abbrev pub ◌>>◌ {ℓ κ} : {X : Type ℓ} {Y : Type κ} → Result X → Result Y → Result Y
first >> second = first >>= λ _. second

-- `if refused: raise e`
abbrev pub refuse_if : Bool → Raise → Result (Unit {0})
refuse_if true e = raised e
refuse_if false e = ok tt

-- `[f(x) for x in xs]`: the first exception ends it.
unfoldable pub each : {A B : Type 0} → (A → Result B) → List A → Result (List B)
each f [] = ok []
each f (x ∷ xs) = do y ← f x; ys ← each f xs; ok (y ∷ ys)

-- What comes of a chain of calls came through each of them.
module _ {ℓ κ} {X : Type ℓ} {Y : Type κ} where
  pub >>=-eq-ok :
      (call : Result X) (next : X → Result Y) {y : Y}
      → call >>= next ≡ ok y
      → (x : X) × (call ≡ ok x) × (next x ≡ ok y)
  >>=-eq-ok (raised e) next came = cc
  >>=-eq-ok (ok x) next came = (x, refl, came)

pub ok_inj {ℓ} : {A : Type ℓ} {a b : A} → ◌≡◌ {A = Result A} (ok a) (ok b) → a ≡ b
ok_inj e = cc

pub refuse_if-ok : (b : Bool) (e : Raise) {u : Unit {0}} → refuse_if b e ≡ ok u → b ≡ false
refuse_if-ok true e h = cc
refuse_if-ok false e h = refl

pub raised_inj {ℓ} : {A : Type ℓ} {d e : Raise} → ◌≡◌ {A = Result A} (raised d) (raised e) → d ≡ e
raised_inj same = cc
