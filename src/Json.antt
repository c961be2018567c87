-- ===== src/Json.antt =====
-- JSON values, as the program sees those that a host or a model hands it: `isinstance` tests, the
-- truth of a value, and `dict.get`. A Python list, tuple or set of such values is an `arr`. A float
-- keeps only its text.
pub mod Text
use slimx_agent.Prelude.{
  ℕ, suc, String, Bool, true, Option, none, some, List, [], ◌∷◌, ◌==◌, if◌then◌else◌,
}

-- `negsuc n` is -(n + 1).
pub data ℤ : Type 0 where
  pos : ℕ → ℤ
  negsuc : ℕ → ℤ

mutual
  pub data Json : Type 0 where
    null : Json
    bool : Bool → Json
    int : ℤ → Json
    float : String → Json
    str : String → Json
    arr : Items → Json
    obj : Fields → Json

  pub data Items : Type 0 where
    nil : Items
    cons : Json → Items → Items

  pub data Fields : Type 0 where
    end : Fields
    field : String → Json → Fields → Fields

-- `data.get(key)`: a missing key reads as `None`.
unfoldable pub get : String → Fields → Json
get k end = null
get k (field j v fs) = if j == k then v else get k fs

abbrev pub strings_of : Items → List String
strings_of nil = []
strings_of (cons (str s) xs) = s ∷ strings_of xs
strings_of (cons _ xs) = strings_of xs

-- `_string_members`: the texts of a list-like value; anything else contributes nothing.
unfoldable pub string_members : Json → List String
string_members (arr xs) = strings_of xs
string_members _ = []

-- `isinstance(value, int) and value > 0`; Python's `True` is the integer 1.
unfoldable pub positive_int : Json → Option ℕ
positive_int (bool true) = some 1
positive_int (int (pos (suc n))) = some (suc n)
positive_int _ = none

abbrev pub of_strings : List String → Items
of_strings [] = nil
of_strings (s ∷ xs) = cons (str s) (of_strings xs)

-- The members of an array, and the entries of an object in their order.
abbrev pub items : Items → List Json
items nil = []
items (cons v vs) = v ∷ items vs

abbrev pub entries : Fields → List (String × Json)
entries end = []
entries (field k v fs) = (k, v) ∷ entries fs

abbrev pub items_of : List Json → Items
items_of [] = nil
items_of (v ∷ vs) = cons v (items_of vs)

abbrev pub fields_of : List (String × Json) → Fields
fields_of [] = end
fields_of ((k, v) ∷ l) = field k v (fields_of l)

-- `{**data, key: value}`: a key that is there keeps its place.
unfoldable pub set : String → Json → Fields → Fields
set k v end = field k v end
set k v (field j w fs) = if j == k then field j v fs else field j w (set k v fs)
