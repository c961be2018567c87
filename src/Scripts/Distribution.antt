-- ===== src/Scripts/Distribution.antt =====
-- scripts/verify_distribution.py, `wheel_problems` and `sdist_problems`: what is wrong with a built
-- distribution. Archives are read already; a set of names is a list, and `sorted` a parameter.
use slimx_agent.Prelude.{
  String, ◌<>◌, ◌==◌, Bool, true, false, not, ◌&&◌, ◌||◌, Option, none, some, List, [], ◌∷◌, ◌++◌,
  map, if◌then◌else◌, eqb, any, contains, filter_if,
}
use Prim.Native.Char.{code}
use slimx_agent.Scripts.Version.{note, shown}

-- `text.startswith(prefix)`
unfoldable pub starts_with : String → String → Bool
starts_with String.[] text = true
starts_with (String.◌∷◌ c prefix) String.[] = false
starts_with (String.◌∷◌ c prefix) (String.◌∷◌ d text) =
    eqb (code c) (code d) && starts_with prefix text

-- `part in text`
unfoldable pub occurs : String → String → Bool
unfolding starts_with
occurs part String.[] = starts_with part String.[]
occurs part (String.◌∷◌ c text) = starts_with part (String.◌∷◌ c text) || occurs part text

-- What stands behind the first slash.
unfoldable pub after_slash : String → String
after_slash String.[] = String.[]
after_slash (String.◌∷◌ c text) =
    let rest = after_slash text in if eqb (code c) 47 then text else rest

-- The headers of METADATA that are read.
pub record Metadata : Type 0 where
  pub version : Option String
  pub license_expression : Option String
  pub requires_dist : List String

pub record Wheel : Type 0 where
  pub name : String
  pub names : List String
  pub metadata : Metadata

abbrev pub dist_info : String → String
dist_info version = "slimx_agent-" <> (version <> ".dist-info")

abbrev pub has_metadata : Wheel → String → Bool
has_metadata wheel version = contains wheel.names (dist_info version <> "/METADATA")

abbrev pub has_license : Wheel → String → Bool
has_license wheel version = contains wheel.names (dist_info version <> "/licenses/LICENSE")

-- `shipped`
unfoldable pub shipped : List String → List String
unfolding starts_with after_slash filter_if
shipped names = map after_slash (filter_if (starts_with "slimx_agent/") names)

-- `modules - shipped`
unfoldable pub unshipped : List String → List String → List String
unfolding filter_if shipped contains
unshipped names modules = filter_if (λ m. not (contains (shipped names) m)) modules

unfoldable pub is_foreign : String → Bool
unfolding starts_with occurs
is_foreign name = starts_with "tests/" name || starts_with "scripts/" name || occurs "/tests/" name

abbrev pub foreign : List String → List String
foreign names = filter_if is_foreign names

-- `pydantic` without an extra.
unfoldable pub is_core_requirement : String → Bool
unfolding starts_with occurs
is_core_requirement req = starts_with "pydantic" req && not (occurs "extra ==" req)

abbrev pub matching : String → List String → List String
matching dependency requirements = filter_if (starts_with dependency) requirements

unfoldable pub in_service_extra : String → List String → Bool
unfolding occurs starts_with filter_if
in_service_extra dependency requirements =
    any (occurs "extra == \"service\"") (matching dependency requirements)

unfoldable pub is_unconfined : String → List String → Bool
unfolding occurs starts_with filter_if
is_unconfined dependency requirements =
    any (λ req. not (occurs "extra ==" req)) (matching dependency requirements)

abbrev pub service_dependencies : List String
service_dependencies = "fastapi" ∷ "uvicorn" ∷ "httpx" ∷ []

abbrev pub dependency_problems : List String → List String → List String
dependency_problems requirements [] = []
dependency_problems requirements (d ∷ rest) =
    note (not (in_service_extra d requirements)) (d <> " is not declared by the service extra")
    ++ (note (is_unconfined d requirements)
          (d <> " is not confined to an extra (core would need it)")
        ++ dependency_problems requirements rest)

abbrev pub version_is : String → Option String → Bool
version_is version none = false
version_is version (some v) = v == version

module _ (sorted : List String → List String) where
  -- What is found once the wheel has its METADATA.
  abbrev pub found_in : Wheel → String → List String → List String
  found_in wheel version modules =
      let m = wheel.metadata in
      note (not (version_is version m.version))
        ("wheel metadata version " <> (shown m.version <> (" != source " <> version)))
      ++ (note (not (version_is "MIT" m.license_expression))
            "wheel metadata lacks License-Expression: MIT"
          ++ (note (not (has_license wheel version)) "wheel does not ship the LICENSE file"
              ++ (note (not (contains wheel.names "slimx_agent/py.typed"))
                    "wheel does not ship the py.typed marker"
                  ++ (map (λ m. "wheel is missing slimx_agent/" <> m)
                        (sorted (unshipped wheel.names modules))
                      ++ (map (λ n. "wheel ships a non-package path: " <> n)
                            (foreign (sorted wheel.names))
                          ++ (note (not (any is_core_requirement m.requires_dist))
                                "pydantic is not an unconditional requirement"
                              ++ dependency_problems m.requires_dist service_dependencies))))))

  unfoldable pub wheel_problems : Wheel → String → List String → List String
  wheel_problems wheel version modules =
      if has_metadata wheel version
      then found_in wheel version modules
      else (wheel.name <> (" has no " <> (dist_info version <> "/METADATA (version drift?)"))) ∷ []

abbrev pub required_members : List String
required_members =
    "PKG-INFO" ∷ "pyproject.toml" ∷ "LICENSE" ∷ "README.md" ∷ "slimx_agent/py.typed" ∷ []

abbrev pub missing_members : List String → String → List String → List String
missing_members names prefix [] = []
missing_members names prefix (r ∷ rest) =
    note (not (contains names (prefix <> r))) ("sdist is missing " <> r)
    ++ missing_members names prefix rest

unfoldable pub sdist_problems : List String → String → List String
sdist_problems names version =
    missing_members names ("slimx_agent-" <> (version <> "/")) required_members
