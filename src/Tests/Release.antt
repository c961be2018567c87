-- ===== src/Tests/Release.antt =====
-- The release checks at a concrete tree and a concrete wheel.
use slimx_agent.Prelude.{
  String, ◌==◌, ◌≡◌, refl, ◌↔◌, filter_if, Bool, none, some, List, [], ◌∷◌, contains,
}
use slimx_agent.Json.{str, arr, obj, nil, cons, Fields, end, field}
use slimx_agent.Outcomes.{ok}
use slimx_agent.Scripts.Version.{assignment, text, Tree, problems, source_version, entry}
use slimx_agent.Scripts.Agreed.{Agreed, problems_iff}
use slimx_agent.Scripts.Distribution.{
  Wheel, wheel_problems, occurs, starts_with, after_slash, shipped, unshipped, is_foreign,
  is_core_requirement, in_service_extra, is_unconfined, sdist_problems,
}
use slimx_agent.Scripts.Shipped.{Sorts, IsShippable, wheel_problems_iff}

abbrev pyproject : Fields
pyproject = field "project" (obj (field "dynamic" (arr (cons (str "version") nil)) end)) (
    field "tool"
      (obj (
        field "setuptools"
          (obj (
            field "dynamic"
              (obj (field "version" (obj (field "attr" (str "slimx_agent.__version__") end)) end))
              end))
          end))
      end)

abbrev tree : Tree
tree = record {
  body = assignment (some "__version__" ∷ []) (some (text "0.21.0")) ∷ [];
  pyproject = pyproject;
  heading = some "0.21.0";
}

abbrev is_release : String → Bool
is_release version = version == "0.21.0"

problems_iff_example :
    (problems is_release occurs tree (some "0.21.0") none ≡ ok [])
    ↔ Agreed is_release occurs tree (some "0.21.0") none
problems_iff_example = problems_iff is_release occurs tree (some "0.21.0") none

abbrev same_order : List String → List String
same_order names = names

same_order-Sorts : Sorts same_order
same_order-Sorts = record { members = λ xs a. refl }

abbrev wheel : Wheel
wheel = record {
  name = "slimx_agent-0.21.0-py3-none-any.whl";
  names =
      "slimx_agent/engine.py" ∷ "slimx_agent/py.typed" ∷ "slimx_agent-0.21.0.dist-info/METADATA"
      ∷ "slimx_agent-0.21.0.dist-info/licenses/LICENSE" ∷ [];
  metadata = record {
    version = some "0.21.0";
    license_expression = some "MIT";
    requires_dist =
        "pydantic>=2" ∷ "fastapi; extra == \"service\"" ∷ "uvicorn; extra == \"service\""
        ∷ "httpx; extra == \"service\"" ∷ [];
  };
}

wheel_problems_iff_example :
    (wheel_problems same_order wheel "0.21.0" ("engine.py" ∷ []) ≡ [])
    ↔ IsShippable wheel "0.21.0" ("engine.py" ∷ [])
wheel_problems_iff_example =
    wheel_problems_iff same_order same_order-Sorts wheel "0.21.0" ("engine.py" ∷ [])

-- Nothing is wrong with the tree and the wheel; a module that is left out is named.
tree_agrees : problems is_release occurs tree (some "0.21.0") none ≡ ok []
unfolding problems source_version entry
tree_agrees = refl

wheel_ships : wheel_problems same_order wheel "0.21.0" ("engine.py" ∷ []) ≡ []
unfolding wheel_problems unshipped shipped after_slash starts_with occurs is_foreign
    is_core_requirement in_service_extra is_unconfined contains filter_if
wheel_ships = refl

module_missing :
    wheel_problems same_order wheel "0.21.0" ("store.py" ∷ [])
    ≡ "wheel is missing slimx_agent/store.py" ∷ []
unfolding wheel_problems unshipped shipped after_slash starts_with occurs is_foreign
    is_core_requirement in_service_extra is_unconfined contains filter_if
module_missing = refl

licence_missing :
    sdist_problems
      ("slimx_agent-0.21.0/PKG-INFO" ∷ "slimx_agent-0.21.0/pyproject.toml"
        ∷ "slimx_agent-0.21.0/README.md" ∷ "slimx_agent-0.21.0/slimx_agent/py.typed" ∷ [])
      "0.21.0"
    ≡ "sdist is missing LICENSE" ∷ []
unfolding sdist_problems contains
licence_missing = refl
