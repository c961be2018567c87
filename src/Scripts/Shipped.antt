-- ===== src/Scripts/Shipped.antt =====
-- scripts/verify_distribution.py: when nothing is wrong with a distribution.
use slimx_agent.Prelude.{
  String, ◌<>◌, ◌==◌, ◌≡◌, refl, ap, sym, ◌∙◌, ◌↔◌, Bool, true, false, not, ◌||◌, Option, none,
  some, List, [], ◌∷◌, map, contains, contains-filter_if, nil-append, arith, eq_iff, Bool-cases,
  inl, inr,
}
use slimx_agent.Scripts.Version.{note}
use slimx_agent.Scripts.Agreed.{note_iff}
use slimx_agent.Scripts.Texts.{shipped_iff}
use slimx_agent.Scripts.Contents.{
  IsForeign, is_foreign_iff, HasCore, HasCore-iff, IsConfined, IsConfined-iff,
}
use slimx_agent.Scripts.Distribution.{
  Wheel, has_metadata, has_license, shipped, unshipped, is_foreign, foreign, service_dependencies,
  dependency_problems, version_is, found_in, wheel_problems,
}

not_both : {b : Bool} → b ≡ true → b ≡ false → ⊥
not_both t f = cc (t, f)

-- A sorted list has the members of the list.
pub record Sorts (sorted : List String → List String) : Type 0 where
  pub members : (xs : List String) (a : String) → contains (sorted xs) a ≡ contains xs a

nil_iff : (xs : List String) → (xs ≡ []) ↔ ((a : String) → contains xs a ≡ false)
unfolding contains
nil_iff [] = (λ e a. refl, λ h. refl)
nil_iff (x ∷ xs) = (λ e. absurd (cc e), λ h. absurd (never (h x)))
  where
    never : (x == x || contains xs x) ≡ false → ⊥
    never e = ground (arith, eq_iff x x)

map-nil : (f : String → String) (xs : List String) → (map f xs ≡ []) ↔ (xs ≡ [])
map-nil f [] = (λ e. refl, λ e. refl)
map-nil f (x ∷ xs) = (λ e. absurd (cc e), λ e. absurd (cc e))

is_noted : (b : Bool) (problem : String) → (note (not b) problem ≡ []) ↔ (b ≡ true)
is_noted true problem = (λ e. refl, λ e. refl)
is_noted false problem = (λ e. absurd (cc e), λ e. absurd (cc e))

version_is_iff : (v : String) (o : Option String) → (version_is v o ≡ true) ↔ (o ≡ some v)
version_is_iff v none = (λ e. absurd (cc e), λ e. absurd (cc e))
version_is_iff v (some u) =
    (λ e. ap (λ t. some t) ((eq_iff u v).0 e), λ e. (eq_iff u v).1 (some_inj e))
  where
    some_inj : {a b : String} → some a ≡ some b → a ≡ b
    some_inj e = cc

-- Each of some dependencies is confined.
abbrev pub Confines : List String → List String → Type 0
Confines requirements [] = Unit
Confines requirements (d ∷ rest) = IsConfined requirements d × Confines requirements rest

dependencies_iff :
    (requirements ds : List String)
    → (dependency_problems requirements ds ≡ []) ↔ Confines requirements ds
dependencies_iff requirements [] = (λ e. tt, λ h. refl)
dependencies_iff requirements (d ∷ rest) =
    let (there, back) = dependencies_iff requirements rest in
    (
      λ e.
          let (declared, e) = nil-append _ _ e in
          let (confined, e) = nil-append _ _ e in
          (
            (IsConfined-iff d requirements).0
                ((is_noted _ _).0 declared, (note_iff _ _).0 confined),
            there e,
          ),
      λ h.
          let (declared, confined) = (IsConfined-iff d requirements).1 h.0 in
          rw (declared, confined, back h.1) refl,
    )

-- What a wheel must be to ship.
pub record IsShippable (wheel : Wheel) (version : String) (modules : List String) : Type 0 where
  pub described : has_metadata wheel version ≡ true
  pub version_eq : wheel.metadata.version ≡ some version
  pub license_eq : wheel.metadata.license_expression ≡ some "MIT"
  pub licensed : has_license wheel version ≡ true
  pub typed : contains wheel.names "slimx_agent/py.typed" ≡ true
  pub complete :
      (m : String) → contains modules m ≡ true → contains wheel.names ("slimx_agent/" <> m) ≡ true
  pub pure : (n : String) → contains wheel.names n ≡ true → ¬ IsForeign n
  pub core : HasCore wheel.metadata.requires_dist
  pub confined : Confines wheel.metadata.requires_dist service_dependencies

not_foreign : (n : String) → ¬ IsForeign n → is_foreign n ≡ false
not_foreign n h = elim (Bool-cases (is_foreign n)) [
  | inl foreign ↦ absurd (h ((is_foreign_iff n).0 foreign))
  | inr fine ↦ fine
]

module _ (sorted : List String → List String) (sorts : Sorts sorted) where
  unshipped_iff :
      (names modules : List String)
      → (map (λ m. "wheel is missing slimx_agent/" <> m) (sorted (unshipped names modules)) ≡ [])
        ↔ ((m : String) → contains modules m ≡ true → contains (shipped names) m ≡ true)
  unfolding unshipped
  unshipped_iff names modules = (
    λ e m listed. there m listed ((nil_iff _).0 ((map-nil _ _).0 e) m),
    λ h. (map-nil _ _).1 ((nil_iff _).1 (λ m. back m (h m))),
  )
    where
      there :
          (m : String)
          → contains modules m ≡ true
          → contains (sorted (unshipped names modules)) m ≡ false
          → contains (shipped names) m ≡ true
      there m listed absent = ground (
        arith,
        sym (sorts.members (unshipped names modules) m) ∙ absent,
        contains-filter_if (λ m. not (contains (shipped names) m)) modules m,
        listed,
      )

      back :
          (m : String)
          → (contains modules m ≡ true → contains (shipped names) m ≡ true)
          → contains (sorted (unshipped names modules)) m ≡ false
      back m h = ground (
        arith,
        sorts.members (unshipped names modules) m,
        contains-filter_if (λ m. not (contains (shipped names) m)) modules m,
        h,
      )

  foreign_iff :
      (names : List String)
      → (map (λ n. "wheel ships a non-package path: " <> n) (foreign (sorted names)) ≡ [])
        ↔ ((n : String) → contains names n ≡ true → is_foreign n ≡ false)
  foreign_iff names = (
    λ e n listed. there n listed ((nil_iff _).0 ((map-nil _ _).0 e) n),
    λ h. (map-nil _ _).1 ((nil_iff _).1 (λ n. back n (h n))),
  )
    where
      there :
          (n : String)
          → contains names n ≡ true
          → contains (foreign (sorted names)) n ≡ false
          → is_foreign n ≡ false
      there n listed absent = ground (
        arith,
        sym (contains-filter_if is_foreign (sorted names) n) ∙ absent,
        sorts.members names n,
        listed,
      )

      back :
          (n : String)
          → (contains names n ≡ true → is_foreign n ≡ false)
          → contains (foreign (sorted names)) n ≡ false
      back n h =
          ground (arith, contains-filter_if is_foreign (sorted names) n, sorts.members names n, h)

  found-IsShippable :
      (wheel : Wheel) (version : String) (modules : List String)
      → has_metadata wheel version ≡ true
      → found_in sorted wheel version modules ≡ []
      → IsShippable wheel version modules
  found-IsShippable wheel version modules described e =
      let (v, e) = nil-append _ _ e in
      let (l, e) = nil-append _ _ e in
      let (f, e) = nil-append _ _ e in
      let (t, e) = nil-append _ _ e in
      let (u, e) = nil-append _ _ e in
      let (n, e) = nil-append _ _ e in
      let (c, e) = nil-append _ _ e in
      record {
        described = described;
        version_eq = (version_is_iff _ _).0 ((is_noted _ _).0 v);
        license_eq = (version_is_iff _ _).0 ((is_noted _ _).0 l);
        licensed = (is_noted _ _).0 f;
        typed = (is_noted _ _).0 t;
        complete = λ m listed.
            (shipped_iff wheel.names m).0 ((unshipped_iff wheel.names modules).0 u m listed);
        pure = λ p listed foreign.
            not_both ((is_foreign_iff p).1 foreign) ((foreign_iff wheel.names).0 n p listed);
        core = (HasCore-iff wheel.metadata.requires_dist).0 ((is_noted _ _).0 c);
        confined = (dependencies_iff wheel.metadata.requires_dist service_dependencies).0 e;
      }

  IsShippable-found :
      (wheel : Wheel) (version : String) (modules : List String)
      → IsShippable wheel version modules
      → found_in sorted wheel version modules ≡ []
  IsShippable-found wheel version modules s =
      rw
        (
          (version_is_iff version wheel.metadata.version).1 s.version_eq,
          (version_is_iff "MIT" wheel.metadata.license_expression).1 s.license_eq,
          s.licensed,
          s.typed,
          (unshipped_iff wheel.names modules).1
              (λ m listed. (shipped_iff wheel.names m).1 (s.complete m listed)),
          (foreign_iff wheel.names).1 (λ n listed. not_foreign n (s.pure n listed)),
          (HasCore-iff wheel.metadata.requires_dist).1 s.core,
          (dependencies_iff wheel.metadata.requires_dist service_dependencies).1 s.confined,
        )
        refl

  -- The wheel check finds nothing exactly where the wheel has its METADATA under the version, with
  -- that version and the MIT licence; ships the licence, the typing marker and every module of the
  -- package, and nothing of tests or scripts; requires pydantic without an extra, and each service
  -- dependency in the service extra and never without one.
  pub wheel_problems_iff :
      (wheel : Wheel) (version : String) (modules : List String)
      → (wheel_problems sorted wheel version modules ≡ []) ↔ IsShippable wheel version modules
  unfolding wheel_problems
  wheel_problems_iff wheel version modules = elim (Bool-cases (has_metadata wheel version)) [
    | inl there ↦ (
      λ e. found-IsShippable wheel version modules there (rw there at e),
      λ s. rw there (IsShippable-found wheel version modules s),
    )
    | inr missing ↦ (λ e. absurd (cc (rw missing at e)), λ s. absurd (not_both s.described missing))
  ]
