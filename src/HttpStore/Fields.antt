-- ===== src/HttpStore/Fields.antt =====
-- slimx_agent/http_store.py: the strict reading of a field of a JSON object.
use slimx_agent.Prelude.{
  String, ◌<>◌, ◌==◌, Bool, false, Option, none, some, List, [], ◌∷◌, if◌then◌else◌, repr,
}
use slimx_agent.Json.{ℤ, Json, null, bool, int, str, arr, Items, nil, cons, Fields, get}
use slimx_agent.Outcomes.{Raise, Result, ok, raised}
use slimx_agent.HostClient.Errors.{new_protocol_error}

-- The refusal of a field, by what it must be.
abbrev pub malformed : String → String → String → Raise
malformed what key expected =
    new_protocol_error (what <> (" field " <> (repr key <> (" must be " <> expected))))

module _ (wire : Fields) (key what : String) where
  abbrev pub text_at : Json → Result String
  text_at (str s) = if s == "" then raised (malformed what key "a non-empty string") else ok s
  text_at _ = raised (malformed what key "a non-empty string")

  unfoldable pub required_str : Result String
  required_str = text_at (get key wire)

  abbrev pub text_or_null_at : Json → Result (Option String)
  text_or_null_at null = ok none
  text_or_null_at (str s) = ok (some s)
  text_or_null_at _ = raised (malformed what key "a string or null")

  unfoldable pub optional_str : Result (Option String)
  optional_str = text_or_null_at (get key wire)

  abbrev pub flag_at : Json → Result Bool
  flag_at null = ok false
  flag_at (bool b) = ok b
  flag_at _ = raised (malformed what key "a boolean or null")

  unfoldable pub optional_bool : Result Bool
  optional_bool = flag_at (get key wire)

  abbrev pub number_at : Json → Result (Option ℤ)
  number_at null = ok none
  number_at (int i) = ok (some i)
  number_at _ = raised (malformed what key "an integer or null")

  unfoldable pub optional_int : Result (Option ℤ)
  optional_int = number_at (get key wire)

-- The texts of an array that holds nothing else.
unfoldable pub all_strings : Items → Option (List String)
all_strings nil = some []
all_strings (cons (str s) vs) = elim (all_strings vs) [ none ↦ none | some l ↦ some (s ∷ l) ]
all_strings (cons _ vs) = none

module _ (wire : Fields) (key what : String) where
  abbrev pub texts : Option (List String) → Result (Option (List String))
  texts none = raised (malformed what key "an array of strings or null")
  texts (some l) = ok (some l)

  abbrev pub texts_at : Json → Result (Option (List String))
  texts_at null = ok none
  texts_at (arr vs) = texts (all_strings vs)
  texts_at _ = texts none

  unfoldable pub optional_str_list : Result (Option (List String))
  unfolding all_strings
  optional_str_list = texts_at (get key wire)
