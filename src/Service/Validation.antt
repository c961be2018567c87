-- ===== src/Service/Validation.antt =====
-- slimx_agent/service.py, `_sanitized_validation_errors`: what of a validation error the answer shows.
use slimx_agent.Prelude.{
  ◌≤◌, String, ◌==◌, ◌≡◌, refl, ap, inl, inr, Bool, true, false, List, [], ◌∷◌, map, not, ◌||◌, sym,
  subst, eq_iff, ◌++◌, if◌then◌else◌, arith, Bool-cases,
}
use Prim.Native.String.{count}
use slimx_agent.Json.{
  Json, null, bool, int, float, str, arr, obj, Items, nil, cons, Fields, end, field, set,
}
use slimx_agent.Json.Text.{py_str}
use slimx_agent.HostClient.Errors.{bounded_detail, max_detail_chars}
use slimx_agent.HostClient.Wire.{bounded_detail_lem}

-- `error.get(key, default)`
unfoldable pub get_or : Json → String → Fields → Json
get_or default k end = default
get_or default k (field j v fs) = if j == k then v else get_or default k fs

-- `part if isinstance(part, str | int) else str(part)`; a bool is an int.
abbrev part_of : Json → Json
part_of (str s) = str s
part_of (int n) = int n
part_of (bool b) = bool b
part_of part = str (py_str part)

abbrev parts_of : Items → Items
parts_of nil = nil
parts_of (cons part parts) = cons (part_of part) (parts_of parts)

-- The location of an error is a tuple, in every error that pydantic reports.
abbrev loc_of : Json → Items
loc_of (arr parts) = parts_of parts
loc_of _ = nil

-- One error as it is shown. The cause of an error, its `input` and its `ctx` stay behind.
pub record Shown : Type 0 where
  pub type : String
  pub loc : Items
  pub msg : String

unfoldable pub shown : Json → Shown
unfolding get_or
shown (obj fs) = record {
  type = py_str (get_or (str "") "type" fs);
  loc = loc_of (get_or (arr nil) "loc" fs);
  msg = bounded_detail (py_str (get_or (str "") "msg" fs)) max_detail_chars;
}
shown _ = record { type = ""; loc = nil; msg = "" }

-- `_sanitized_validation_errors`
abbrev pub sanitized_validation_errors : List Json → List Shown
sanitized_validation_errors errors = map shown errors

get_or-set :
    (default v : Json) (k j : String) (fs : Fields)
    → j == k ≡ false
    → get_or default k (set j v fs) ≡ get_or default k fs
unfolding get_or set
get_or-set default v k j end h = rw h refl
get_or-set default v k j (field i w fs) h = elim (Bool-cases (i == j)) [
  | inl same ↦
      rw (same, get_or, subst (λ (x : String). x == k ≡ false) (sym ((eq_iff i j).0 same)) h) refl
  | inr other ↦ rw (other, get_or, get_or-set default v k j fs h) refl
]

-- What of an error is not shown.
abbrev is_hidden : String → Bool
is_hidden k = not (k == "type" || k == "loc" || k == "msg")

shown-blind :
    (j : String) (v : Json) (fs : Fields)
    → is_hidden j ≡ true
    → shown (obj (set j v fs)) ≡ shown (obj fs)
unfolding shown
shown-blind j v fs h =
    rw
      (
        get_or-set (str "") v "type" j fs (ground (arith, h)),
        get_or-set (arr nil) v "loc" j fs (ground (arith, h)),
        get_or-set (str "") v "msg" j fs (ground (arith, h)),
      )
      refl

-- The answer to an invalid request does not depend on any other entry of an error than its type, its
-- location and its message: not on the input that was refused nor on its context. And no message of
-- it is longer than 500 characters.
pub sanitized-blind :
    (before after : List Json) (j : String) (v : Json) (fs : Fields)
    → is_hidden j ≡ true
    → (sanitized_validation_errors (before ++ obj (set j v fs) ∷ after)
        ≡ sanitized_validation_errors (before ++ obj fs ∷ after))
      × ((error : Json) → count (shown error).msg ≤ max_detail_chars)
unfolding shown
sanitized-blind before after j v fs h = (same before, bounded)
  where
    same :
        (before : List Json)
        → sanitized_validation_errors (before ++ obj (set j v fs) ∷ after)
          ≡ sanitized_validation_errors (before ++ obj fs ∷ after)
    same [] = ap (λ x. x ∷ map shown after) (shown-blind j v fs h)
    same (e ∷ before) = ap (λ l. shown e ∷ l) (same before)

    bounded : (error : Json) → count (shown error).msg ≤ max_detail_chars
    bounded (obj gs) = (bounded_detail_lem _ 500 (omega arith)).0
    bounded null = omega arith
    bounded (bool b) = omega arith
    bounded (int n) = omega arith
    bounded (float t) = omega arith
    bounded (str t) = omega arith
    bounded (arr xs) = omega arith
