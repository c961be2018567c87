-- ===== src/Prelude/Tables.antt =====
-- What is checked once over a whole list or table holds at each of its members.
use Prim.Native.String.{String}
use mathlib.Core.Path.{◌≡◌, refl}
use mathlib.Core.Bool.{Bool, true, false, ◌&&◌, ◌||◌}
use mathlib.Core.Option.{some}
use mathlib.Core.List.{List, [], ◌∷◌, ◌++◌}
use native.Mathlib.Omega.{arith}
use text.Mathlib.Text.{◌==◌}
use text.Mathlib.TextEquality.{eq_iff}
use slimx_agent.Prelude.Lists.{all, contains, lookup, filter_if}

pub all-contains :
    (p : String → Bool) (xs : List String) (a : String)
    → all p xs ≡ true
    → contains xs a ≡ true
    → p a ≡ true
unfolding contains
all-contains p [] a h m = cc
all-contains p (x ∷ xs) a h m = ground (arith, eq_iff x a, all-contains p xs a)

pub contains-nil : (a : String) → contains [] a ≡ false
unfolding contains
contains-nil a = refl

pub contains-cons :
    (x : String) (xs : List String) (a : String) → contains (x ∷ xs) a ≡ ((x == a) || contains xs a)
unfolding contains
contains-cons x xs a = refl

pub contains-append :
    (xs ys : List String) (a : String) → contains (xs ++ ys) a ≡ (contains xs a || contains ys a)
unfolding contains
contains-append [] ys a = refl
contains-append (x ∷ xs) ys a = ground (arith, contains-append xs ys a)

pub contains-snoc :
    (xs : List String) (x a : String) → contains (xs ++ x ∷ []) a ≡ (contains xs a || (x == a))
unfolding contains
contains-snoc xs x a = ground (arith, contains-append xs (x ∷ []) a)

pub contains-filter_if :
    (p : String → Bool) (xs : List String) (a : String)
    → contains (filter_if p xs) a ≡ (contains xs a && p a)
unfolding contains filter_if
contains-filter_if p [] a = refl
contains-filter_if p (x ∷ xs) a = ground (arith, eq_iff x a, contains-filter_if p xs a)

module _ {ℓ} {V : Type ℓ} where
  -- Every entry of the table passes a test of its key and value.
  abbrev pub all_entries : (String → V → Bool) → List (String × V) → Bool
  all_entries p [] = true
  all_entries p ((k, v) ∷ l) = p k v && all_entries p l

  pub all_entries-lookup :
      (p : String → V → Bool) (l : List (String × V)) (k : String) {v : V}
      → all_entries p l ≡ true
      → lookup k l ≡ some v
      → p k v ≡ true
  unfolding lookup
  all_entries-lookup p [] k h e = cc
  all_entries-lookup p ((j, w) ∷ l) k {v} h e =
      ground (arith, eq_iff j k, all_entries-lookup p l k {v = v})

pub nil-append {ℓ} : {A : Type ℓ} → (xs ys : List A) → xs ++ ys ≡ [] → (xs ≡ []) × (ys ≡ [])
nil-append [] ys e = (refl, e)
nil-append (x ∷ xs) ys e = absurd (cc e)
