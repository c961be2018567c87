-- ===== src/Policies/Normalize.antt =====
-- slimx_agent/policies.py, `normalize_grants`: a client's grant list becomes a list of known keys,
-- each once, in the order of their first use.
use slimx_agent.Prelude.{
  String, ◌≡◌, refl, Bool, true, false, ◌&&◌, ◌||◌, none, some, List, [], ◌∷◌, ◌++◌, ◌∙◌, ap, sym,
  contains-nil, append_assoc, append-nil, arith, ◌==◌, eq_iff, contains, contains-cons,
  contains-snoc, strip, any, all, all-contains, Bool-cases, inl, inr,
}
use slimx_agent.Contracts.{grantable_tools}
use slimx_agent.Policies.{normalize_grants, grants_loop, kept}

-- The list asks for the key, blanks around it aside.
abbrev pub asks_for : List String → String → Bool
asks_for raw k = any (λ item. strip item == k) raw

empty_not_grantable : contains grantable_tools "" ≡ false
unfolding contains
empty_not_grantable = refl

-- Adding a key to both keeps `seen` and `out` the same set.
same-snoc :
    (key : String) (seen out : List String)
    → ((j : String) → contains seen j ≡ contains out j)
    → (j : String) → contains (key ∷ seen) j ≡ contains (out ++ key ∷ []) j
same-snoc key seen out same j =
    ground (arith, contains-cons key seen j, contains-snoc out key j, same j)

module _ (k : String) where
  loop_members :
      (raw seen out : List String)
      → ((j : String) → contains seen j ≡ contains out j)
      → contains (grants_loop raw seen out) k
        ≡ (contains out k || (contains grantable_tools k && asks_for raw k))
  unfolding grants_loop kept
  loop_members [] seen out same = ground arith
  loop_members (item ∷ rest) seen out same =
      let key = strip item in
      ground (
        arith,
        loop_members rest (key ∷ seen) (out ++ key ∷ []) (same-snoc key seen out same),
        loop_members rest seen out same,
        contains-snoc out key k,
        eq_iff key k,
        eq_iff key "",
        same k,
        empty_not_grantable,
      )

-- Each text occurs once.
abbrev pub Distinct : List String → Type 0
Distinct [] = Unit
Distinct (x ∷ xs) = (contains xs x ≡ false) × Distinct xs

Distinct-snoc :
    (xs : List String) (a : String) → Distinct xs → contains xs a ≡ false → Distinct (xs ++ a ∷ [])
unfolding contains
Distinct-snoc [] a d new = (refl, tt)
Distinct-snoc (x ∷ xs) a d new = (
  ground (arith, contains-snoc xs a x, eq_iff x a, eq_iff a x),
  Distinct-snoc xs a d.1 (ground arith),
)

taken_new :
    (key : String) (seen : List String)
    → kept key seen ≡ true
    → (contains grantable_tools key ≡ true) × (contains seen key ≡ false)
unfolding kept
taken_new key seen h = ground arith

loop-Distinct :
    (raw seen out : List String)
    → ((j : String) → contains seen j ≡ contains out j)
    → Distinct out
    → Distinct (grants_loop raw seen out)
unfolding grants_loop
loop-Distinct [] seen out same d = d
loop-Distinct (item ∷ rest) seen out same d = elim (Bool-cases (kept (strip item) seen)) [
  | inl taken ↦ rw taken (
      loop-Distinct rest (strip item ∷ seen) (out ++ strip item ∷ [])
        (same-snoc (strip item) seen out same)
        (Distinct-snoc out (strip item) d
          (ground (arith, same (strip item), taken_new (strip item) seen taken))))
  | inr dropped ↦ rw dropped (loop-Distinct rest seen out same d)
]

keys_stripped : all (λ k. strip k == k) grantable_tools ≡ true
unfolding strip
keys_stripped = refl

stripped : (k : String) → contains grantable_tools k ≡ true → strip k ≡ k
stripped k known =
    (eq_iff (strip k) k).0 (all-contains (λ k. strip k == k) grantable_tools k keys_stripped known)

contains-head : (x : String) (xs : List String) → contains (x ∷ xs) x ≡ true
contains-head x xs = ground (arith, contains-cons x xs x, eq_iff x x)

kept_new :
    (k : String) (seen : List String)
    → contains grantable_tools k ≡ true
    → contains seen k ≡ false
    → kept k seen ≡ true
unfolding kept
kept_new k seen known new = ground (arith, eq_iff k "", empty_not_grantable)

-- The outcome is `None` for `None`. Of a list it holds, each once, exactly the known grants that the
-- list asks for.
pub normalize_grants_lem :
    (raw : List String)
    → (normalize_grants none ≡ none)
      × ((out : List String) × (normalize_grants (some raw) ≡ some out)
          × Distinct out
          × ((k : String) → contains out k ≡ (contains grantable_tools k && asks_for raw k)))
unfolding normalize_grants
normalize_grants_lem raw = (
  refl,
  (
    grants_loop raw [] [],
    refl,
    loop-Distinct raw [] [] (λ j. refl) tt,
    λ k. loop_members k raw [] [] (λ j. refl) ∙ nil-or k raw,
  ),
)
  where
    nil-or :
        (k : String) (raw : List String)
        → (contains [] k || (contains grantable_tools k && asks_for raw k))
          ≡ (contains grantable_tools k && asks_for raw k)
    nil-or k raw = ground (arith, contains-nil k)

-- On distinct known keys that `seen` lacks the loop drops nothing.
loop-normal :
    (xs seen out : List String)
    → Distinct xs
    → ((j : String) → contains xs j ≡ true → contains grantable_tools j ≡ true)
    → ((j : String) → contains xs j ≡ true → contains seen j ≡ false)
    → grants_loop xs seen out ≡ out ++ xs
unfolding grants_loop
loop-normal [] seen out d known new = sym (append-nil out)
loop-normal (x ∷ xs) seen out d known new =
    rw
      (
        stripped x (known x (contains-head x xs)),
        kept_new x seen (known x (contains-head x xs)) (new x (contains-head x xs)),
      )
      (loop-normal xs (x ∷ seen) (out ++ x ∷ []) d.1
          (λ j m. known j (ground (arith, contains-cons x xs j)))
          (λ j m.
            ground (arith, contains-cons x seen j, contains-cons x xs j, new j, d.0, eq_iff x j))
        ∙ append_assoc out (x ∷ []) xs)

-- Normalising a normalised list changes nothing.
normalize_grants_idem :
    (raw out : List String)
    → normalize_grants (some raw) ≡ some out
    → normalize_grants (some out) ≡ some out
unfolding normalize_grants
normalize_grants_idem raw out e =
    let same : grants_loop raw [] [] ≡ out = ground arith in
    rw (← same) (
      ap some (
        loop-normal (grants_loop raw [] []) [] [] (loop-Distinct raw [] [] (λ j. refl) tt)
          (λ j m. ground (arith, loop_members j raw [] [] (λ j. refl), contains-nil j))
          (λ j m. contains-nil j)))
