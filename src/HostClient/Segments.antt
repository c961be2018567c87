-- ===== src/HostClient/Segments.antt =====
-- slimx_agent/host_client.py, `_segment`: a quoted identity is one path segment, and keeps its bytes.
use slimx_agent.Prelude.{
  ltb, ℕ, zero, suc, ◌+◌, ◌-◌, ◌*◌, ◌/◌, ◌%◌, ◌<◌, String, ◌≡◌, refl, ◌≢◌, Bool, true, false, ◌&&◌,
  ◌||◌, List, [], ◌∷◌, ◌++◌, if◌then◌else◌, leb, eqb, contains, ap, ◌∙◌, arith, eq_iff, Bool-cases,
  inl, inr,
}
use Prim.Native.Char.{Char, code}
use slimx_agent.Outcomes.{ok, ok_inj}
use slimx_agent.HostClient.Urls.{
  is_unreserved, utf8_char, utf8, hex_digit, percent, escape_bytes, quote, segment,
}

-- `urllib.parse.unquote_to_bytes`, of a text of ASCII characters.
hex_value : ℕ → ℕ
hex_value c = if leb c 57 then c - 48 else c - 55

unfoldable pub unquote : String → List ℕ
unfolding hex_value
unquote String.[] = []
unquote (String.◌∷◌ c String.[]) = code c ∷ []
unquote (String.◌∷◌ c (String.◌∷◌ d String.[])) = code c ∷ code d ∷ []
unquote (String.◌∷◌ c (String.◌∷◌ d (String.◌∷◌ e s))) =
    let escaped = unquote s in
    let plain = unquote (String.◌∷◌ d (String.◌∷◌ e s)) in
    if eqb (code c) 37
    then (16 * hex_value (code d) + hex_value (code e)) ∷ escaped
    else code c ∷ plain

all_below : ℕ → (ℕ → Bool) → Bool
all_below zero p = true
all_below (suc n) p = p n && all_below n p

all_below_lem : (n : ℕ) (p : ℕ → Bool) (x : ℕ) → all_below n p ≡ true → x < n → p x ≡ true
unfolding all_below
all_below_lem zero p x h lt = absurd (omega arith)
all_below_lem (suc n) p x h lt = ground (arith, all_below_lem n p x)

hex_table : all_below 16 (λ n. eqb (hex_value (code (hex_digit n))) n) ≡ true
unfolding all_below hex_value hex_digit
hex_table = refl

hex_round : (n : ℕ) → n < 16 → hex_value (code (hex_digit n)) ≡ n
hex_round n h =
    ground (arith, all_below_lem 16 (λ n. eqb (hex_value (code (hex_digit n))) n) n hex_table h)

unquote-plain :
    (c : Char) (s : String)
    → eqb (code c) 37 ≡ false
    → unquote (String.◌∷◌ c s) ≡ code c ∷ unquote s
unfolding unquote
unquote-plain c String.[] h = refl
unquote-plain c (String.◌∷◌ d String.[]) h = refl
unquote-plain c (String.◌∷◌ d (String.◌∷◌ e s)) h = rw h

abbrev pub AllBytes : List ℕ → Type 0
AllBytes [] = Unit
AllBytes (b ∷ bytes) = (b < 256) × AllBytes bytes

unquote-escape_bytes :
    (bytes : List ℕ) (s : String)
    → AllBytes bytes
    → unquote (escape_bytes bytes s) ≡ bytes ++ unquote s
unfolding unquote escape_bytes
unquote-escape_bytes [] s h = refl
unquote-escape_bytes (b ∷ bytes) s h =
    rw
      (
        hex_round (b / 16) (omega arith),
        hex_round (b % 16) (omega arith),
        unquote-escape_bytes bytes s h.1,
      )
      (ap (λ (x : ℕ). x ∷ (bytes ++ unquote s)) (omega arith))

pub code-lt : (c : Char) → code c < 1114112
code-lt (Char.char n s) = ground arith

utf8_char-AllBytes : (c : ℕ) → c < 1114112 → AllBytes (utf8_char c)
unfolding utf8_char
utf8_char-AllBytes c h = ground arith

unreserved_plain : (c : ℕ) → is_unreserved c ≡ true → (eqb c 37 ≡ false) × (c < 128)
unfolding is_unreserved
unreserved_plain c h = ground arith

utf8-plain : (c : ℕ) → c < 128 → utf8_char c ≡ c ∷ []
unfolding utf8_char
utf8-plain c h = ground arith

-- Percent-decoding a quoted text gives back its bytes in UTF-8: the host reads the same identity.
pub unquote-quote : (text : String) → unquote (quote text) ≡ utf8 text
unfolding quote utf8 unquote
unquote-quote String.[] = refl
unquote-quote (String.◌∷◌ c s) = elim (Bool-cases (is_unreserved (code c))) [
  | inl plain ↦ rw plain (
      unquote-plain c (quote s) (unreserved_plain (code c) plain).0
      ∙ rw (utf8-plain (code c) (unreserved_plain (code c) plain).1)
          (ap (λ (l : List ℕ). code c ∷ l) (unquote-quote s)))
  | inr escaped ↦ rw (
    escaped,
    unquote-escape_bytes (utf8_char (code c)) (quote s) (utf8_char-AllBytes (code c) (code-lt c)),
    unquote-quote s,
  )
]

-- A character that stands in a path segment without ending it.
abbrev pub is_segment_char : Char → Bool
is_segment_char c = is_unreserved (code c) || eqb (code c) 37

abbrev pub AllSafe : String → Type 0
AllSafe String.[] = Unit
AllSafe (String.◌∷◌ c s) = (is_segment_char c ≡ true) × AllSafe s

safe_table : all_below 16 (λ n. is_segment_char (hex_digit n)) ≡ true
unfolding all_below is_unreserved hex_digit
safe_table = refl

hex_safe : (n : ℕ) → n < 16 → is_segment_char (hex_digit n) ≡ true
hex_safe n h = all_below_lem 16 (λ n. is_segment_char (hex_digit n)) n safe_table h

escape_bytes-AllSafe :
    (bytes : List ℕ) (s : String) → AllBytes bytes → AllSafe s → AllSafe (escape_bytes bytes s)
unfolding escape_bytes
escape_bytes-AllSafe [] s small h = h
escape_bytes-AllSafe (b ∷ bytes) s small h = (
  percent_safe,
  (
    hex_safe (b / 16) (omega arith),
    (hex_safe (b % 16) (omega arith), escape_bytes-AllSafe bytes s small.1 h),
  ),
)
  where
    percent_safe : is_segment_char percent ≡ true
    percent_safe = ground arith

quote-AllSafe : (text : String) → AllSafe (quote text)
unfolding quote
quote-AllSafe String.[] = tt
quote-AllSafe (String.◌∷◌ c s) = elim (Bool-cases (is_unreserved (code c))) [
  | inl plain ↦ rw plain (ground arith, quote-AllSafe s)
  | inr escaped ↦ rw escaped (
      escape_bytes-AllSafe (utf8_char (code c)) (quote s) (utf8_char-AllBytes (code c) (code-lt c))
        (quote-AllSafe s))
]

-- An escaped text begins with a percent sign.
record Escaped (s : String) (bytes : List ℕ) : Type 0 where
  rest : String
  at : escape_bytes bytes s ≡ String.◌∷◌ percent rest

Escaped-cons : (s : String) (b : ℕ) (bytes : List ℕ) → Escaped s (b ∷ bytes)
unfolding escape_bytes
Escaped-cons s b bytes = record { rest = _; at = refl }

Escaped-if :
    (s : String) (b : Bool) {x y : List ℕ}
    → Escaped s x
    → Escaped s y
    → Escaped s (if b then x else y)
Escaped-if s true p q = p
Escaped-if s false p q = q

utf8_char-Escaped : (c : ℕ) (s : String) → Escaped s (utf8_char c)
unfolding utf8_char escape_bytes
utf8_char-Escaped c s = Escaped-if s (ltb c 128) (Escaped-cons s c []) (
    Escaped-if s (ltb c 2048) (Escaped-cons s (192 + c / 64) ((128 + c % 64) ∷ [])) (
      Escaped-if s (ltb c 65536)
        (Escaped-cons s (224 + c / 4096) ((128 + c / 64 % 64) ∷ (128 + c % 64) ∷ []))
        (Escaped-cons s (240 + c / 262144)
          ((128 + c / 4096 % 64) ∷ (128 + c / 64 % 64) ∷ (128 + c % 64) ∷ []))))

quote-nil : (text : String) → quote text ≡ "" → text ≡ ""
unfolding quote
quote-nil String.[] e = refl
quote-nil (String.◌∷◌ c s) e = elim (Bool-cases (is_unreserved (code c))) [
  | inl plain ↦ cc (rw plain at e)
  | inr escaped ↦ cc (rw escaped at e, (utf8_char-Escaped (code c) (quote s)).at)
]

-- A quoted text that begins with another character kept its first character.
quote-cons :
    (text : String) (x : Char) (t : String)
    → quote text ≡ String.◌∷◌ x t
    → percent ≢ x
    → (s : String) × (text ≡ String.◌∷◌ x s) × (quote s ≡ t)
unfolding quote
quote-cons String.[] x t e other = cc
quote-cons (String.◌∷◌ c s) x t e other = elim (Bool-cases (is_unreserved (code c))) [
  | inl plain ↦ let e' : String.◌∷◌ c (quote s) ≡ String.◌∷◌ x t = rw plain at e in (s, cc, cc)
  | inr escaped ↦ absurd (other (cc (rw escaped at e, (utf8_char-Escaped (code c) (quote s)).at)))
]

dot_char : Char
dot_char = "."

percent-ne-dot : percent ≢ dot_char
unfolding dot_char
percent-ne-dot e = absurd (37-ne-46 (ap code e))
  where
    37-ne-46 : ◌≢◌ {A = ℕ} 37 46
    37-ne-46 = omega arith

quote-dot : (text : String) → quote text ≡ "." → text ≡ "."
unfolding dot_char
quote-dot text e =
    let (s, shape, rest) = quote-cons text dot_char "" e percent-ne-dot in
    cc (shape, quote-nil s rest)

quote-dots : (text : String) → quote text ≡ ".." → text ≡ ".."
unfolding dot_char
quote-dots text e =
    let (s, shape, rest) = quote-cons text dot_char "." e percent-ne-dot in
    cc (shape, quote-dot s rest)

-- A segment is never empty, holds no character that could end it or start another part of the URL,
-- and is no dot segment.
pub segment-AllSafe :
    (text s : String)
    → segment text ≡ ok s
    → AllSafe s × (s ≢ "") × (s ≢ ".") × (s ≢ "..") × (unquote s ≡ utf8 text)
unfolding segment contains
segment-AllSafe text s e = elim (Bool-cases (contains ("" ∷ "." ∷ ".." ∷ []) text)) [
  | inl refused ↦ cc (rw refused at e)
  | inr taken ↦
      let same : quote text ≡ s = ok_inj (rw taken at e) in
      rw (← same) (
        quote-AllSafe text,
        (λ nil. ground (arith, eq_iff "" text, quote-nil text nil)),
        (λ dot. ground (arith, eq_iff "." text, quote-dot text dot)),
        (λ dots. ground (arith, eq_iff ".." text, quote-dots text dots)),
        unquote-quote text,
      )
]
