-- ===== src/Scripts/Agreed.antt =====
-- scripts/check_version.py, `problems`: when nothing is found.
use slimx_agent.Prelude.{
  String, ◌≡◌, refl, ap, ◌↔◌, Bool, true, false, not, Option, none, some, [], arith, eq_iff,
  nil-append,
}
use slimx_agent.Json.{Fields}
use slimx_agent.Outcomes.{Result, ok, raised, ok_inj, ◌>>=◌}
use slimx_agent.Scripts.Version.{
  Tree, source_version, entry, get_table, has_key, is_attr, lists_version, found, heading_problem,
  note, differs, problems,
}

-- An absent version, or the same.
abbrev Matches : Option String → String → Type 0
Matches none version = Unit
Matches (some v) version = v ≡ version

pub note_iff : (b : Bool) (problem : String) → (note b problem ≡ []) ↔ (b ≡ false)
note_iff true problem = (λ e. cc e, λ e. cc e)
note_iff false problem = (λ e. refl, λ e. refl)

differs_iff :
    (v : Option String) (version : String) → (differs v version ≡ false) ↔ Matches v version
differs_iff none version = (λ e. tt, λ m. refl)
differs_iff (some v) version = ground (arith, eq_iff v version)

heading_iff :
    (heading : Option String) (version : String)
    → (heading_problem heading version ≡ []) ↔ (heading ≡ some version)
heading_iff none version = (λ e. cc e, λ e. cc e)
heading_iff (some heading) version =
    let (same, back) = eq_iff heading version in
    (
      λ e. ap (λ v. some v) (same (not_false ((note_iff _ _).0 e))),
      λ e. (note_iff _ _).1 (rw (back (some_inj e)) refl),
    )
  where
    not_false : {b : Bool} → not b ≡ false → b ≡ true
    not_false {b} e = ground arith

    some_inj : {a b : String} → some a ≡ some b → a ≡ b
    some_inj e = cc

module _ {A B : Type 0} where
  bind_ok :
      (m : Result A) (f : A → Result B) (b : B)
      → (m >>= f) ≡ ok b
      → (a : A) × (m ≡ ok a) × (f a ≡ ok b)
  bind_ok (ok a) f b e = (a, refl, e)
  bind_ok (raised r) f b e = absurd (cc e)

-- The representations agree with a version.
pub record AgreesWith (matches : String → Bool) (version : String) (static listed derived : Bool)
    (heading installed health : Option String) : Type 0 where
  pub plain : matches version ≡ true
  pub not_static : static ≡ false
  pub is_listed : listed ≡ true
  pub is_derived : derived ≡ true
  pub newest : heading ≡ some version
  pub installed_same : Matches installed version
  pub health_same : Matches health version

module _ (matches : String → Bool) (occurs : String → String → Bool) where
  found-empty :
      (version : String) (static listed derived : Bool) (heading installed health : Option String)
      → found matches occurs version static listed derived heading installed health ≡ []
      → AgreesWith matches version static listed derived heading installed health
  found-empty version static listed derived heading installed health e =
      let (shape, e) = nil-append _ _ e in
      let (s, e) = nil-append _ _ e in
      let (l, e) = nil-append _ _ e in
      let (d, e) = nil-append _ _ e in
      let (h, e) = nil-append _ _ e in
      let (i, e) = nil-append _ _ e in
      record {
        plain = not_false ((note_iff _ _).0 shape);
        not_static = (note_iff _ _).0 s;
        is_listed = not_false ((note_iff _ _).0 l);
        is_derived = not_false ((note_iff _ _).0 d);
        newest = (heading_iff heading version).0 h;
        installed_same = (differs_iff installed version).0 ((note_iff _ _).0 i);
        health_same = (differs_iff health version).0 ((note_iff _ _).0 e);
      }
    where
      not_false : {b : Bool} → not b ≡ false → b ≡ true
      not_false {b} e = ground arith

  empty-found :
      (version : String) (static listed derived : Bool) (heading installed health : Option String)
      → AgreesWith matches version static listed derived heading installed health
      → found matches occurs version static listed derived heading installed health ≡ []
  empty-found version static listed derived heading installed health a =
      rw
        (
          a.plain,
          a.not_static,
          a.is_listed,
          a.is_derived,
          (heading_iff heading version).1 a.newest,
          (differs_iff installed version).1 a.installed_same,
          (differs_iff health version).1 a.health_same,
        )
        refl

  -- The tables that the check reads are there, and what they say agrees with the source's version.
  pub record Agreed (tree : Tree) (installed health : Option String) : Type 0 where
    pub version : String
    pub source : source_version tree.body ≡ ok version
    pub project : Fields
    pub project_eq : get_table "project" tree.pyproject ≡ ok project
    pub is_dynamic : Bool
    pub listed_eq : lists_version matches occurs (entry "dynamic" project) ≡ ok is_dynamic
    pub tool : Fields
    pub tool_eq : get_table "tool" tree.pyproject ≡ ok tool
    pub setuptools : Fields
    pub setuptools_eq : get_table "setuptools" tool ≡ ok setuptools
    pub dynamic : Fields
    pub dynamic_eq : get_table "dynamic" setuptools ≡ ok dynamic
    pub agrees :
        AgreesWith matches version
          (has_key "version" project)
          is_dynamic
          (is_attr (entry "version" dynamic))
          tree.heading
          installed
          health

  -- The version check finds nothing exactly where pyproject.toml can be read as it expects, declares
  -- no static version but a dynamic one that is the package's attribute, and the newest heading of
  -- the changelog, the installed distribution and the health answer, where there are these two, all
  -- have the version of the source, which is of a release's form.
  pub problems_iff :
      (tree : Tree) (installed health : Option String)
      → (problems matches occurs tree installed health ≡ ok []) ↔ Agreed tree installed health
  unfolding problems
  problems_iff tree installed health = (clean, agreed)
    where
      clean : problems matches occurs tree installed health ≡ ok [] → Agreed tree installed health
      clean e =
          let (version, source, e) = bind_ok _ _ _ e in
          let (project, project_eq, e) = bind_ok _ _ _ e in
          let (listed, listed_eq, e) = bind_ok _ _ _ e in
          let (tool, tool_eq, e) = bind_ok _ _ _ e in
          let (setuptools, setuptools_eq, e) = bind_ok _ _ _ e in
          let (dynamic, dynamic_eq, e) = bind_ok _ _ _ e in
          record {
            version = version;
            source = source;
            project = project;
            project_eq = project_eq;
            is_dynamic = listed;
            listed_eq = listed_eq;
            tool = tool;
            tool_eq = tool_eq;
            setuptools = setuptools;
            setuptools_eq = setuptools_eq;
            dynamic = dynamic;
            dynamic_eq = dynamic_eq;
            agrees = found-empty _ _ _ _ _ _ _ (ok_inj e);
          }

      agreed : Agreed tree installed health → problems matches occurs tree installed health ≡ ok []
      agreed a =
          rw
            (
              a.source,
              a.project_eq,
              a.listed_eq,
              a.tool_eq,
              a.setuptools_eq,
              a.dynamic_eq,
              empty-found _ _ _ _ _ _ _ a.agrees,
            )
            refl
