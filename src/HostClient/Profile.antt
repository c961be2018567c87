-- ===== src/HostClient/Profile.antt =====
-- slimx_agent/runtime.py (`RunProfile`) and host_client.py: the profile's wire shape.
use slimx_agent.Prelude.{if◌then◌else◌, String, ◌==◌, Option, none, some}
use slimx_agent.Json.{Json, null, str, Fields, end, field, get}
use slimx_agent.Outcomes.{Result, ok, raised, value_error, ◌>>=◌}

pub record RunProfile : Type 0 where
  pub provider : String
  pub model : String
  pub base_url : Option String

-- A text or `None`, as JSON.
abbrev pub nullable : Option String → Json
nullable none = null
nullable (some s) = str s

unfoldable pub profile_wire : RunProfile → Fields
profile_wire profile =
    field "provider" (str profile.provider)
      (field "model" (str profile.model) (field "base_url" (nullable profile.base_url) end))

-- `not isinstance(value, str) or not value`
given : Json → String → Result String
given (str s) e = if s == "" then raised (value_error e) else ok s
given _ e = raised (value_error e)

text_or_null : Json → String → Result (Option String)
text_or_null null e = ok none
text_or_null (str s) e = ok (some s)
text_or_null _ e = raised (value_error e)

unfoldable pub profile_from_wire : Fields → Result RunProfile
unfolding given text_or_null
profile_from_wire wire = do
  provider ← given (get "provider" wire) "profile provider must be a non-empty string"
  model ← given (get "model" wire) "profile model must be a non-empty string"
  base_url ← text_or_null (get "base_url" wire) "profile base_url must be a string or null"
  ok (record { provider = provider; model = model; base_url = base_url })
