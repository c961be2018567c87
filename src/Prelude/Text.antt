-- ===== src/Prelude/Text.antt =====
-- Python's text operations that the program uses: slicing, `strip`, `str` of a number, `repr`.
use Prim.Native.Nat.{ℕ, zero, suc, ◌/◌, ◌%◌}
use Prim.Native.Char.{Char, code}
use Prim.Native.String.{String, [], ◌∷◌, ◌++◌ as ◌<>◌}
use mathlib.Core.Bool.{Bool, true, false, ◌&&◌, ◌||◌, not}
use text.Mathlib.Text.{◌==◌}
use slimx_agent.Prelude.Core.{if◌then◌else◌, ltb, leb}

-- `text[:n]`
unfoldable pub clip : ℕ → String → String
clip zero s = []
clip (suc n) [] = []
clip (suc n) (c ∷ s) = c ∷ clip n s

-- The characters that `str.strip` removes.
abbrev between : ℕ → ℕ → ℕ → Bool
between lo hi c = leb lo c && leb c hi

unfoldable pub is_space : Char → Bool
is_space ch =
    let c = code ch in
    between 9 13 c
    || between 28 32 c
    || between 133 133 c
    || between 160 160 c
    || between 5760 5760 c
    || between 8192 8202 c
    || between 8232 8233 c
    || between 8239 8239 c
    || between 8287 8287 c
    || between 12288 12288 c

unfoldable pub lstrip : String → String
lstrip [] = []
lstrip (c ∷ s) = let rest = lstrip s in if is_space c then rest else c ∷ s

-- A character stays before a text that is not blank; a trailing space goes.
unfoldable pub rstrip : String → String
rstrip [] = []
rstrip (c ∷ s) = let rest = rstrip s in if is_space c && (rest == "") then [] else c ∷ rest

unfoldable pub strip : String → String
unfolding is_space lstrip rstrip
strip s = rstrip (lstrip s)

abbrev digit : ℕ → String
digit zero = "0"
digit (suc zero) = "1"
digit (suc (suc zero)) = "2"
digit (suc (suc (suc zero))) = "3"
digit (suc (suc (suc (suc zero)))) = "4"
digit (suc (suc (suc (suc (suc zero))))) = "5"
digit (suc (suc (suc (suc (suc (suc zero)))))) = "6"
digit (suc (suc (suc (suc (suc (suc (suc zero))))))) = "7"
digit (suc (suc (suc (suc (suc (suc (suc (suc zero)))))))) = "8"
digit _ = "9"

show_below : ℕ → ℕ → String → String
show_below zero n acc = acc
show_below (suc f) n acc = elim (ltb n 10) [
  | true ↦ digit n <> acc
  | false ↦ show_below f (n / 10) (digit (n % 10) <> acc)
]

-- `str(n)` of a natural number; a number has at most `n + 1` digits.
unfoldable pub show : ℕ → String
unfolding show_below
show n = show_below (suc n) n ""

has : ℕ → String → Bool
has k [] = false
has k (c ∷ s) = (leb k (code c) && leb (code c) k) || has k s

escape : ℕ → String → String
escape q [] = []
escape q (ch ∷ s) =
    let c = code ch in
    let rest = escape q s in
    if between 92 92 c || between q q c
    then "\\" <> (ch ∷ rest)
    else if between 10 10 c
    then "\\n" <> rest
    else if between 13 13 c
    then "\\r" <> rest
    else if between 9 9 c
    then "\\t" <> rest
    else ch ∷ rest

-- `repr(text)`: the quotes that Python chooses, and its escapes. Characters that are not printable,
-- but for the tab and the line ends, stand as they are.
unfoldable pub repr : String → String
unfolding has escape
repr s =
    if has 39 s && not (has 34 s)
    then "\"" <> (escape 34 s <> "\"")
    else "'" <> (escape 39 s <> "'")
