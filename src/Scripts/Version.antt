-- ===== src/Scripts/Version.antt =====
-- scripts/check_version.py: whether every representation of the package version agrees. The parsers of
-- Python and TOML and the regular expressions are the standard library's, and parameters.
use slimx_agent.Prelude.{
  ℕ, String, ◌<>◌, ◌==◌, Bool, true, false, not, ◌&&◌, Option, none, some, List, [], ◌∷◌, ◌++◌,
  if◌then◌else◌, any, repr,
}
use slimx_agent.Json.{Json, str, arr, obj, Items, nil, cons, Fields, end, field}
use slimx_agent.Outcomes.{Result, ok, raised, value_error, other, ◌>>=◌}

-- A constant of the syntax tree: a text, or another.
pub data Constant : Type 0 where
  text : String → Constant
  another : Constant

-- A node of a module's body: an assignment, by its targets' names (`none` where a target is no name)
-- and its constant value, if it is one; or another node.
pub data Node : Type 0 where
  assignment : List (Option String) → Option Constant → Node
  statement : Node

abbrev is_version : Option String → Bool
is_version none = false
is_version (some id) = id == "__version__"

-- The text that a node assigns to `__version__`, if it does.
abbrev pub version_in : Node → Option String
version_in (assignment targets (some (text value))) =
    if any is_version targets then some value else none
version_in _ = none

-- `source_version`
unfoldable pub source_version : List Node → Result String
source_version [] =
    raised (value_error "slimx_agent/__init__.py has no literal __version__ assignment")
source_version (node ∷ body) =
    let rest = source_version body in elim (version_in node) [ some value ↦ ok value | none ↦ rest ]

-- `table.get(key)`, where a missing key is `none`.
unfoldable pub entry : String → Fields → Option Json
entry k end = none
entry k (field j v fs) = if j == k then some v else entry k fs

abbrev no_get : {A : Type 0} → Result A
no_get = raised (other "AttributeError" "no attribute 'get'")

-- A table to read on in; `{}` where the key is missing.
abbrev table_of : Option Json → Result Fields
table_of none = ok end
table_of (some (obj fs)) = ok fs
table_of (some _) = no_get

abbrev pub get_table : String → Fields → Result Fields
get_table k fs = table_of (entry k fs)

abbrev pub has_key : String → Fields → Bool
has_key k end = false
has_key k (field j v fs) = let rest = has_key k fs in if j == k then true else rest

abbrev has_text : String → Items → Bool
has_text t nil = false
has_text t (cons (str s) xs) = let rest = has_text t xs in if s == t then true else rest
has_text t (cons _ xs) = has_text t xs

-- `{"attr": "slimx_agent.__version__"}`
abbrev pub is_attr : Option Json → Bool
is_attr (some (obj (field k (str v) end))) = (k == "attr") && (v == "slimx_agent.__version__")
is_attr _ = false

-- What stands in the checked tree: the module's body, the parsed pyproject.toml, and the version of
-- CHANGELOG.md's first release heading, if there are a file and a heading.
pub record Tree : Type 0 where
  pub body : List Node
  pub pyproject : Fields
  pub heading : Option String

abbrev pub note : Bool → String → List String
note true problem = problem ∷ []
note false problem = []

abbrev pub differs : Option String → String → Bool
differs none version = false
differs (some v) version = not (v == version)

abbrev pub shown : Option String → String
shown none = "None"
shown (some v) = v

abbrev pub heading_problem : Option String → String → List String
heading_problem none version = "CHANGELOG.md has no '## <version>' release heading" ∷ []
heading_problem (some heading) version =
    note (not (heading == version))
      ("CHANGELOG.md newest heading is " <> (heading <> (", not " <> version)))

-- `matches` is `VERSION_SHAPE.match`, `occurs` Python's test of a substring.
module _ (matches : String → Bool) (occurs : String → String → Bool) where
  -- `"version" in value`
  abbrev pub lists_version : Option Json → Result Bool
  lists_version none = ok false
  lists_version (some (arr xs)) = ok (has_text "version" xs)
  lists_version (some (obj fs)) = ok (has_key "version" fs)
  lists_version (some (str s)) = ok (occurs "version" s)
  lists_version (some _) = raised (other "TypeError" "argument is not iterable")

  -- What is found, once everything has been read.
  abbrev pub found :
      String → Bool → Bool → Bool → Option String → Option String → Option String → List String
  found version static listed derived heading installed health =
      note (not (matches version))
        ("__version__ " <> (repr version <> " is not a plain release version"))
      ++ (note static "pyproject.toml declares a static [project] version; it must be dynamic"
          ++ (note (not listed) "pyproject.toml does not list 'version' in [project] dynamic"
              ++ (note (not derived)
                    "[tool.setuptools.dynamic] version must be {attr = 'slimx_agent.__version__'}"
                  ++ (heading_problem heading version
                      ++ (note (differs installed version) (
                            "installed distribution metadata is "
                            <> (shown installed <> (", not " <> version)))
                          ++ note (differs health version) (
                              "service /health reports "
                              <> (shown health <> (", not " <> version))))))))

  unfoldable pub problems : Tree → Option String → Option String → Result (List String)
  unfolding source_version
  problems tree installed health = do
    version ← source_version tree.body
    project ← get_table "project" tree.pyproject
    listed ← lists_version (entry "dynamic" project)
    tool ← get_table "tool" tree.pyproject
    setuptools ← get_table "setuptools" tool
    dynamic ← get_table "dynamic" setuptools
    ok (
        found version (has_key "version" project) listed (is_attr (entry "version" dynamic))
          tree.heading installed health)

-- The exit status of `main`.
abbrev pub exit_status : List String → ℕ
exit_status [] = 0
exit_status (problem ∷ found) = 1
