-- ===== src/Scripts/Contents.antt =====
-- scripts/verify_distribution.py: what the wheel check reads in a path and in a requirement.
use slimx_agent.Prelude.{
  String, ◌≡◌, ◌↔◌, ◌⊎◌, ◌&&◌, Bool, true, false, not, ◌||◌, List, any, contains,
  contains-filter_if, arith, Bool-cases, inl, inr,
}
use slimx_agent.Scripts.Texts.{Begins, Occurs, starts_with_iff, occurs_iff, any_iff}
use slimx_agent.Scripts.Distribution.{
  starts_with, occurs, matching, is_foreign, is_core_requirement, in_service_extra, is_unconfined,
}

-- A path of the tests or the scripts: it begins with their directory, or has one of tests inside.
pub record IsForeign (name : String) : Type 0 where
  pub place : Begins "tests/" name ⊎ Begins "scripts/" name ⊎ Occurs "/tests/" name

pub is_foreign_iff : (name : String) → (is_foreign name ≡ true) ↔ IsForeign name
unfolding is_foreign
is_foreign_iff name = (λ e. record { place = found e }, λ h. back h.place)
  where
    found :
        (starts_with "tests/" name || starts_with "scripts/" name || occurs "/tests/" name) ≡ true
        → Begins "tests/" name ⊎ Begins "scripts/" name ⊎ Occurs "/tests/" name
    found e = elim (Bool-cases (starts_with "tests/" name)) [
      | inl tests ↦ inl ((starts_with_iff _ _).0 tests)
      | inr no_tests ↦ elim (Bool-cases (starts_with "scripts/" name)) [
        | inl scripts ↦ inr (inl ((starts_with_iff _ _).0 scripts))
        | inr no_scripts ↦ inr (inr ((occurs_iff _ _).0 (ground (arith, e, no_tests, no_scripts))))
      ]
    ]

    back :
        Begins "tests/" name ⊎ Begins "scripts/" name ⊎ Occurs "/tests/" name
        → (starts_with "tests/" name || starts_with "scripts/" name || occurs "/tests/" name) ≡ true
    back (inl h) = let e = (starts_with_iff "tests/" name).1 h in ground (arith, e)
    back (inr (inl h)) = let e = (starts_with_iff "scripts/" name).1 h in ground (arith, e)
    back (inr (inr h)) = let e = (occurs_iff "/tests/" name).1 h in ground (arith, e)

-- A requirement that stands behind some extra, as a marker in its text says.
abbrev pub IsExtra : String → Type 0
IsExtra requirement = Occurs "extra ==" requirement

-- Some requirement installs pydantic without an extra.
pub record HasCore (requirements : List String) : Type 0 where
  pub requirement : String
  pub required : contains requirements requirement ≡ true
  pub pydantic : Begins "pydantic" requirement
  pub always : ¬ IsExtra requirement

pub HasCore-iff :
    (requirements : List String)
    → (any is_core_requirement requirements ≡ true) ↔ HasCore requirements
unfolding is_core_requirement
HasCore-iff requirements = (
  λ e. found ((any_iff is_core_requirement requirements).0 e),
  λ h. (any_iff is_core_requirement requirements).1 (h.requirement, h.required, core h),
)
  where
    found :
        (x : String) × (contains requirements x ≡ true) × (is_core_requirement x ≡ true)
        → HasCore requirements
    found (x, listed, is) = record {
      requirement = x;
      required = listed;
      pydantic = (starts_with_iff "pydantic" x).0 (ground (arith, is));
      always = λ extra. clash ((occurs_iff "extra ==" x).1 extra) (ground (arith, is));
    }
      where
        clash : occurs "extra ==" x ≡ true → occurs "extra ==" x ≡ false → ⊥
        clash t f = cc (t, f)

    core : (h : HasCore requirements) → is_core_requirement h.requirement ≡ true
    core h =
        let begins = (starts_with_iff "pydantic" h.requirement).1 h.pydantic in
        elim (Bool-cases (occurs "extra ==" h.requirement)) [
          | inl extra ↦ absurd (h.always ((occurs_iff "extra ==" h.requirement).0 extra))
          | inr plain ↦ ground (arith, begins, plain)
        ]

-- A service dependency is declared by the service extra, and is never required without an extra.
pub record IsConfined (requirements : List String) (dependency : String) : Type 0 where
  pub declared :
      (requirement : String) × (contains requirements requirement ≡ true)
      × Begins dependency requirement
      × Occurs "extra == \"service\"" requirement
  pub extra :
      (requirement : String)
      → contains requirements requirement ≡ true
      → Begins dependency requirement
      → IsExtra requirement

module _ (dependency : String) (requirements : List String) where
  in_matching :
      (x : String)
      → contains (matching dependency requirements) x
        ≡ (contains requirements x && starts_with dependency x)
  in_matching x = contains-filter_if (starts_with dependency) requirements x

  declared_iff : (in_service_extra dependency requirements ≡ true) ↔ (
      (x : String) × (contains requirements x ≡ true)
      × Begins dependency x
      × Occurs "extra == \"service\"" x)
  unfolding in_service_extra
  declared_iff = (
    λ e. found ((any_iff _ (matching dependency requirements)).0 e),
    λ h. back h.0 h.1 ((starts_with_iff dependency h.0).1 h.2) ((occurs_iff _ h.0).1 h.3),
  )
    where
      found :
          (x : String) × (contains (matching dependency requirements) x ≡ true)
            × (occurs "extra == \"service\"" x ≡ true)
          → (x : String) × (contains requirements x ≡ true)
            × Begins dependency x
            × Occurs "extra == \"service\"" x
      found (x, member, marked) = (
        x,
        ground (arith, member, in_matching x),
        (starts_with_iff dependency x).0 (ground (arith, member, in_matching x)),
        (occurs_iff _ x).0 marked,
      )

      back :
          (x : String)
          → contains requirements x ≡ true
          → starts_with dependency x ≡ true
          → occurs "extra == \"service\"" x ≡ true
          → any (occurs "extra == \"service\"") (matching dependency requirements) ≡ true
      back x listed begins marked =
          (any_iff _ (matching dependency requirements)).1
            (x, ground (arith, in_matching x, listed, begins), marked)

  unmarked : (x : String) → not (occurs "extra ==" x) ≡ true → IsExtra x → ⊥
  unmarked x plain extra =
      let marked = (occurs_iff "extra ==" x).1 extra in ground (arith, plain, marked)

  IsExtra-iff :
      (is_unconfined dependency requirements ≡ false)
      ↔ ((x : String) → contains requirements x ≡ true → Begins dependency x → IsExtra x)
  unfolding is_unconfined
  IsExtra-iff =
      (λ e x listed begins. there e x listed ((starts_with_iff dependency x).1 begins), λ h. back h)
    where
      unconfined : Bool
      unconfined = any (λ req. not (occurs "extra ==" req)) (matching dependency requirements)

      there :
          unconfined ≡ false
          → (x : String) → contains requirements x ≡ true
          → starts_with dependency x ≡ true
          → IsExtra x
      there e x listed begins = elim (Bool-cases (occurs "extra ==" x)) [
        | inl marked ↦ (occurs_iff "extra ==" x).0 marked
        | inr plain ↦
            let bad : unconfined ≡ true =
              (any_iff _ (matching dependency requirements)).1
                (x, ground (arith, in_matching x, listed, begins), ground (arith, plain)) in
            absurd (cc (e, bad))
      ]

      back :
          ((x : String) → contains requirements x ≡ true → Begins dependency x → IsExtra x)
          → unconfined ≡ false
      back h = elim (Bool-cases unconfined) [
        | inl bad ↦
            let (x, member, plain) = (any_iff _ (matching dependency requirements)).0 bad in
            absurd (
              unmarked x plain (
                h x (ground (arith, member, in_matching x))
                  ((starts_with_iff dependency x).0 (ground (arith, member, in_matching x)))))
        | inr fine ↦ fine
      ]

  pub IsConfined-iff :
      (in_service_extra dependency requirements ≡ true)
        × (is_unconfined dependency requirements ≡ false)
      ↔ IsConfined requirements dependency
  IsConfined-iff = (
    λ e. record { declared = declared_iff.0 e.0; extra = IsExtra-iff.0 e.1 },
    λ h. (declared_iff.1 h.declared, IsExtra-iff.1 h.extra),
  )
