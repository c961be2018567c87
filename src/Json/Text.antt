-- ===== src/Json/Text.antt =====
-- What Python's `bool(value)`, `str(value)` and `repr(value)` say of a JSON value. A float stands by
-- its `repr`.
use slimx_agent.Prelude.{String, ◌<>◌, Bool, true, false, ◌||◌, not, ◌==◌, show, repr, zero, suc}
use slimx_agent.Json.{
  ℤ, pos, negsuc, Json, null, bool, int, float, str, arr, obj, Items, nil, cons, Fields, end, field,
}

unfoldable pub truthy : Json → Bool
truthy null = false
truthy (bool b) = b
truthy (int (pos n)) = elim n [ zero ↦ false | suc _ ↦ true ]
truthy (int (negsuc _)) = true
truthy (float s) = not ((s == "0.0") || (s == "-0.0"))
truthy (str s) = not (s == "")
truthy (arr nil) = false
truthy (arr (cons _ _)) = true
truthy (obj end) = false
truthy (obj (field _ _ _)) = true

unfoldable pub show_int : ℤ → String
show_int (pos n) = show n
show_int (negsuc n) = "-" <> show (suc n)

unfoldable mutual
  pub py_repr : Json → String
  py_repr null = "None"
  py_repr (bool true) = "True"
  py_repr (bool false) = "False"
  py_repr (int i) = show_int i
  py_repr (float s) = s
  py_repr (str s) = repr s
  py_repr (arr nil) = "[]"
  py_repr (arr (cons v vs)) = "[" <> (py_repr v <> (more_items vs <> "]"))
  py_repr (obj end) = "{}"
  py_repr (obj (field k v fs)) = "{" <> (repr k <> (": " <> (py_repr v <> (more_fields fs <> "}"))))

  more_items : Items → String
  more_items nil = ""
  more_items (cons v vs) = ", " <> (py_repr v <> more_items vs)

  more_fields : Fields → String
  more_fields end = ""
  more_fields (field k v fs) = ", " <> (repr k <> (": " <> (py_repr v <> more_fields fs)))

unfoldable pub py_str : Json → String
py_str (str s) = s
py_str v = py_repr v
