-- ===== src/Scripts/Coverage.antt =====
-- scripts/check_coverage.py: the floors that a coverage report must reach. The floats and their
-- printing are parameters.
use slimx_agent.Prelude.{
  ℕ, String, ◌<>◌, ◌≡◌, refl, ◌↔◌, Bool, true, false, Option, none, some, List, [], ◌∷◌, ◌++◌,
  if◌then◌else◌, lookup, nil-append, Bool-cases, inl, inr,
}

-- `MODULE_FLOORS`, in whole percents.
abbrev pub module_floors : List (String × ℕ)
module_floors =
    ("slimx_agent/engine.py", 98)
    ∷ ("slimx_agent/policies.py", 98)
    ∷ ("slimx_agent/http_tools.py", 100)
    ∷ ("slimx_agent/http_store.py", 98)
    ∷ ("slimx_agent/host_client.py", 95)
    ∷ ("slimx_agent/service.py", 93)
    ∷ ("slimx_agent/planning.py", 97)
    ∷ []

-- The figures of a report: the total, and each file's own.
pub record Report (Percent : Type 0) : Type 0 where
  pub total : Percent
  pub files : List (String × Percent)

not_both : {b : Bool} → b ≡ true → b ≡ false → ⊥
not_both t f = cc

-- `below` is `<` on floats, `digits` the format `.2f`.
module _ {Percent : Type 0} (below : Percent → Percent → Bool) (digits : Percent → String) where
  abbrev below_floor : String → Percent → Option Percent → List String
  below_floor path floor none = (path <> " is missing from the coverage report") ∷ []
  below_floor path floor (some covered) =
      if below covered floor
      then (path
          <> (" coverage "
              <> (digits covered <> ("% is below its " <> (digits floor <> "% floor")))))
        ∷ []
      else []

  unfoldable pub module_failures : List (String × Percent) → List (String × Percent) → List String
  unfolding lookup
  module_failures files [] = []
  module_failures files ((path, floor) ∷ floors) =
      below_floor path floor (lookup path files) ++ module_failures files floors

  abbrev below_total : Percent → Percent → List String
  below_total total floor =
      if below total floor
      then ("total coverage "
          <> (digits total <> ("% is below the " <> (digits floor <> "% floor"))))
        ∷ []
      else []

  unfoldable pub failures : Report Percent → Percent → List (String × Percent) → List String
  unfolding module_failures
  failures report total_floor floors =
      below_total report.total total_floor ++ module_failures report.files floors

  -- Every module that has a floor is in the report, and not below it.
  abbrev pub Reaches : List (String × Percent) → List (String × Percent) → Type 0
  Reaches files [] = Unit
  Reaches files ((path, floor) ∷ floors) =
      ((covered : Percent) × (lookup path files ≡ some covered) × (below covered floor ≡ false))
      × Reaches files floors

  floor_iff :
      (path : String) (floor : Percent) (entry : Option Percent)
      → (below_floor path floor entry ≡ [])
        ↔ ((covered : Percent) × (entry ≡ some covered) × (below covered floor ≡ false))
  floor_iff path floor none = (λ e. cc e, λ h. cc h.1)
  floor_iff path floor (some covered) = elim (Bool-cases (below covered floor)) [
    | inl low ↦ (λ e. absurd (cc (rw low at e)), λ h. absurd (not_both low (by_covered h.1 h.2)))
    | inr fine ↦ (λ e. (covered, refl, fine), λ h. rw fine refl)
  ]
    where
      by_covered :
          {x : Percent}
          → ◌≡◌ {A = Option Percent} (some covered) (some x)
          → below x floor ≡ false
          → below covered floor ≡ false
      by_covered e h = cc

  module_failures_iff :
      (files floors : List (String × Percent))
      → (module_failures files floors ≡ []) ↔ Reaches files floors
  unfolding module_failures
  module_failures_iff files [] = (λ e. tt, λ h. refl)
  module_failures_iff files ((path, floor) ∷ floors) =
      let (there, back) = floor_iff path floor (lookup path files) in
      let (all_there, all_back) = module_failures_iff files floors in
      (
        λ e. let (first, rest) = nil-append _ _ e in (there first, all_there rest),
        λ h. rw (back h.0, all_back h.1) refl,
      )

  -- The coverage gate passes exactly where the total is not below its floor and every module with a
  -- floor is in the report and not below its own: no module is exempt by its absence.
  failures_iff :
      (report : Report Percent) (total_floor : Percent) (floors : List (String × Percent))
      → (failures report total_floor floors ≡ [])
        ↔ ((below report.total total_floor ≡ false) × Reaches report.files floors)
  unfolding failures
  failures_iff report total_floor floors =
      let (there, back) = module_failures_iff report.files floors in
      elim (Bool-cases (below report.total total_floor)) [
        | inl low ↦ (λ e. absurd (cc (rw low at e)), λ h. absurd (not_both low h.0))
        | inr fine ↦ (λ e. (fine, there (rw fine at e)), λ h. rw fine (back h.1))
      ]
