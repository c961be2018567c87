-- ===== src/Scripts/Texts.antt =====
-- scripts/verify_distribution.py: what the tests on the names and requirements of a wheel say of the
-- texts.
use slimx_agent.Prelude.{
  ℕ, suc, String, ◌<>◌, ◌≡◌, refl, ap, sym, ◌∙◌, ◌↔◌, inl, inr, Bool, true, false, ◌&&◌, ◌||◌, List,
  [], ◌∷◌, eqb, ◌==◌, any, contains, contains-filter_if, if◌then◌else◌, filter_if, map, arith,
  eq_iff, Bool-cases, subst,
}
use Prim.Native.Char.{Char, code}
use Prim.Native.String.append
use text.Mathlib.TextEquality.{Char-path}
use slimx_agent.Scripts.Distribution.{starts_with, occurs, after_slash, shipped}

abbrev pub Begins : String → String → Type 0
Begins prefix text = (rest : String) × (text ≡ prefix <> rest)

abbrev pub Occurs : String → String → Type 0
Occurs part text = (before : String) × (after : String) × (text ≡ before <> (part <> after))

tail : String → String
tail String.[] = String.[]
tail (String.◌∷◌ c text) = text

head_code : String → ℕ
head_code String.[] = 0
head_code (String.◌∷◌ c text) = suc (code c)

empty_cons : {c : Char} {t : String} → String.[] ≡ String.◌∷◌ c t → ⊥
unfolding head_code
empty_cons {c} e = let no : ◌≡◌ {A = ℕ} 0 (suc (code c)) = ap head_code e in omega (arith, no)

pub starts_with_iff : (prefix text : String) → (starts_with prefix text ≡ true) ↔ Begins prefix text
unfolding starts_with tail head_code
starts_with_iff String.[] text = (λ e. (text, sym (append.nil text)), λ h. refl)
starts_with_iff (String.◌∷◌ c prefix) String.[] =
    (λ e. absurd (cc e), λ h. absurd (empty_cons (h.1 ∙ append.cons c prefix h.0)))
starts_with_iff (String.◌∷◌ c prefix) (String.◌∷◌ d text) =
    let (there, back) = starts_with_iff prefix text in
    (λ e. begins there e, λ h. again back h.0 h.1)
  where
    begins :
        (starts_with prefix text ≡ true → Begins prefix text)
        → (eqb (code c) (code d) && starts_with prefix text) ≡ true
        → Begins (String.◌∷◌ c prefix) (String.◌∷◌ d text)
    begins there e =
        let (rest, same) = there (ground (arith, e)) in
        let first : d ≡ c = Char-path d c (ground (arith, e)) in
        (
          rest,
          ap (λ (k : Char). String.◌∷◌ k text) first
              ∙ (ap (λ (t : String). String.◌∷◌ c t) same ∙ sym (append.cons c prefix rest)),
        )

    again :
        (Begins prefix text → starts_with prefix text ≡ true)
        → (rest : String) → String.◌∷◌ d text ≡ String.◌∷◌ c prefix <> rest
        → (eqb (code c) (code d) && starts_with prefix text) ≡ true
    again back rest e =
        let same = e ∙ append.cons c prefix rest in
        let behind = back (rest, ap tail same) in
        let first : suc (code d) ≡ suc (code c) = ap head_code same in ground (arith, behind, first)

pub occurs_iff : (part text : String) → (occurs part text ≡ true) ↔ Occurs part text
unfolding occurs tail
occurs_iff part String.[] =
    let (there, back) = starts_with_iff part String.[] in
    (λ e. (String.[], (there e).0, (there e).1 ∙ sym (append.nil _)), λ h. at_end h.0 h.1 h.2)
  where
    at_end :
        (before after : String)
        → String.[] ≡ before <> (part <> after)
        → starts_with part String.[] ≡ true
    at_end String.[] after e = (starts_with_iff part String.[]).1 (after, e ∙ append.nil _)
    at_end (String.◌∷◌ c before) after e = absurd (empty_cons (e ∙ append.cons c before _))
occurs_iff part (String.◌∷◌ c text) =
    let (there, back) = occurs_iff part text in (λ e. found there e, λ h. again back h.0 h.1 h.2)
  where
    found :
        (occurs part text ≡ true → Occurs part text)
        → (starts_with part (String.◌∷◌ c text) || occurs part text) ≡ true
        → Occurs part (String.◌∷◌ c text)
    found there e = elim (Bool-cases (starts_with part (String.◌∷◌ c text))) [
      | inl here ↦
          let (after, same) = (starts_with_iff part (String.◌∷◌ c text)).0 here in
          (String.[], after, same ∙ sym (append.nil _))
      | inr later ↦
          let (before, after, same) = there (ground (arith, e, later)) in
          (
            String.◌∷◌ c before,
            after,
            ap (λ (t : String). String.◌∷◌ c t) same ∙ sym (append.cons c before _),
          )
    ]

    again :
        (Occurs part text → occurs part text ≡ true)
        → (before after : String) → String.◌∷◌ c text ≡ before <> (part <> after)
        → (starts_with part (String.◌∷◌ c text) || occurs part text) ≡ true
    again back String.[] after e =
        let here = (starts_with_iff part (String.◌∷◌ c text)).1 (after, e ∙ append.nil _) in
        ground (arith, here)
    again back (String.◌∷◌ d before) after e =
        let later = back (before, after, ap tail (e ∙ append.cons d before _)) in
        ground (arith, later)

pub any_iff :
    (p : String → Bool) (xs : List String)
    → (any p xs ≡ true) ↔ ((x : String) × (contains xs x ≡ true) × (p x ≡ true))
unfolding contains
any_iff p [] = (λ e. absurd (cc e), λ h. absurd (never h.1))
  where
    never : ◌≡◌ {A = Bool} false true → ⊥
    never e = cc e
any_iff p (y ∷ xs) =
    let (there, back) = any_iff p xs in (λ e. found there e, λ h. again back h.0 h.1 h.2)
  where
    found :
        (any p xs ≡ true → (x : String) × (contains xs x ≡ true) × (p x ≡ true))
        → (p y || any p xs) ≡ true
        → (x : String) × ((y == x || contains xs x) ≡ true) × (p x ≡ true)
    found there e = elim (Bool-cases (p y)) [
      | inl here ↦ (y, ground (arith, eq_iff y y), here)
      | inr not_here ↦
          let (x, member, holds) = there (ground (arith, e, not_here)) in
          (x, ground (arith, member), holds)
    ]

    again :
        ((x : String) × (contains xs x ≡ true) × (p x ≡ true) → any p xs ≡ true)
        → (x : String) → (y == x || contains xs x) ≡ true
        → p x ≡ true
        → (p y || any p xs) ≡ true
    again back x member holds = elim (Bool-cases (y == x)) [
      | inl same ↦
          let here : p y ≡ true = ap p ((eq_iff y x).0 same) ∙ holds in ground (arith, here)
      | inr other ↦
          let later = back (x, ground (arith, member, other), holds) in ground (arith, later)
    ]

-- A text that ends at its first slash.
ends_at_slash : String → Bool
ends_at_slash String.[] = false
ends_at_slash (String.◌∷◌ c text) = if eqb (code c) 47 then text == "" else ends_at_slash text

after_slash-append :
    (prefix rest : String) → ends_at_slash prefix ≡ true → after_slash (prefix <> rest) ≡ rest
unfolding after_slash ends_at_slash
after_slash-append String.[] rest e = absurd (cc e)
after_slash-append (String.◌∷◌ c prefix) rest e = elim (Bool-cases (eqb (code c) 47)) [
  | inl slash ↦
      rw (append.cons c prefix rest, slash)
        (ap (λ (t : String). t <> rest) ((eq_iff prefix "").0 (ground (arith, e, slash)))
          ∙ append.nil rest)
  | inr other ↦
      rw (append.cons c prefix rest, other)
        (after_slash-append prefix rest (ground (arith, e, other)))
]

contains-map :
    (f : String → String) (xs : List String) (y : String)
    → (contains (map f xs) y ≡ true) ↔ ((x : String) × (contains xs x ≡ true) × (f x ≡ y))
unfolding contains
contains-map f [] y = (λ e. absurd (cc e), λ h. absurd (never h.1))
  where
    never : ◌≡◌ {A = Bool} false true → ⊥
    never e = cc e
contains-map f (z ∷ xs) y =
    let (there, back) = contains-map f xs y in (λ e. found there e, λ h. again back h.0 h.1 h.2)
  where
    found :
        (contains (map f xs) y ≡ true → (x : String) × (contains xs x ≡ true) × (f x ≡ y))
        → (f z == y || contains (map f xs) y) ≡ true
        → (x : String) × ((z == x || contains xs x) ≡ true) × (f x ≡ y)
    found there e = elim (Bool-cases (f z == y)) [
      | inl here ↦ (z, ground (arith, eq_iff z z), (eq_iff (f z) y).0 here)
      | inr not_here ↦
          let (x, member, same) = there (ground (arith, e, not_here)) in
          (x, ground (arith, member), same)
    ]

    again :
        ((x : String) × (contains xs x ≡ true) × (f x ≡ y) → contains (map f xs) y ≡ true)
        → (x : String) → (z == x || contains xs x) ≡ true
        → f x ≡ y
        → (f z == y || contains (map f xs) y) ≡ true
    again back x member same = elim (Bool-cases (z == x)) [
      | inl is ↦
          let here = (eq_iff (f z) y).1 (ap f ((eq_iff z x).0 is) ∙ same) in ground (arith, here)
      | inr other ↦
          let later = back (x, ground (arith, member, other), same) in ground (arith, later)
    ]

-- The modules that are shipped are those that stand in the package's directory.
pub shipped_iff :
    (names : List String) (m : String)
    → (contains (shipped names) m ≡ true) ↔ (contains names ("slimx_agent/" <> m) ≡ true)
unfolding shipped
shipped_iff names m = (
  λ e. found ((contains-map after_slash packaged m).0 e),
  λ h. (contains-map after_slash packaged m).1 ("slimx_agent/" <> m, among h, after m),
)
  where
    packaged : List String
    packaged = filter_if (starts_with "slimx_agent/") names

    after : (rest : String) → after_slash ("slimx_agent/" <> rest) ≡ rest
    after rest = after_slash-append "slimx_agent/" rest (unfold ends_at_slash in refl)

    among :
        contains names ("slimx_agent/" <> m) ≡ true → contains packaged ("slimx_agent/" <> m) ≡ true
    among h = ground (
      arith,
      h,
      contains-filter_if (starts_with "slimx_agent/") names ("slimx_agent/" <> m),
      (starts_with_iff "slimx_agent/" ("slimx_agent/" <> m)).1 (m, refl),
    )

    found :
        (x : String) × (contains packaged x ≡ true) × (after_slash x ≡ m)
        → contains names ("slimx_agent/" <> m) ≡ true
    found (x, member, same) =
        let begins : starts_with "slimx_agent/" x ≡ true =
          ground (arith, member, contains-filter_if (starts_with "slimx_agent/") names x) in
        let listed : contains names x ≡ true =
          ground (arith, member, contains-filter_if (starts_with "slimx_agent/") names x) in
        let (rest, is) = (starts_with_iff "slimx_agent/" x).0 begins in
        let is_rest : rest ≡ m = sym (after rest) ∙ (ap after_slash (sym is) ∙ same) in
        subst (λ (n : String). contains names n ≡ true)
          (is ∙ ap (λ (t : String). "slimx_agent/" <> t) is_rest) listed
