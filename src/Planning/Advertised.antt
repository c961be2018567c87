-- ===== src/Planning/Advertised.antt =====
-- slimx_agent/planning.py, `advertised_step_types`, and the permission gate that will judge the steps.
use slimx_agent.Prelude.{
  String, ◌<>◌, if◌then◌else◌, ◌≡◌, refl, ◌↔◌, Bool, true, false, not, ◌&&◌, Option, none, some,
  List, [], ◌∷◌, contains, filter_if, contains-filter_if, arith, Option-cases, inl, inr,
}
use slimx_agent.Contracts.{allowed_step_types}
use slimx_agent.Json.{
  Json, null, bool, int, float, str, arr, obj, Items, nil, cons, Fields, end, field, string_members,
}
use slimx_agent.Json.Text.{truthy}
use slimx_agent.Outcomes.{Raise, other, Result, ok, raised, ◌>>=◌}
use slimx_agent.Store.{Run, Step}
use slimx_agent.Policies.{required_grant, granted_tools, permission_block_reason}
use slimx_agent.Policies.Permission.{permission_iff}

abbrev pub never_advertised_step_types : List String
never_advertised_step_types =
    "mcp_call" ∷ "plugin_tool" ∷ "netops_apply" ∷ "netops_auto_apply" ∷ "research_iterate" ∷ []

-- `grant is None or grant in grants`
abbrev pub is_granted : List String → Option String → Bool
is_granted grants none = true
is_granted grants (some grant) = contains grants grant

unfoldable pub is_advertised : List String → String → Bool
is_advertised grants t =
    not (contains never_advertised_step_types t) && is_granted grants (required_grant t)

-- The characters of a text, each a text.
abbrev chars : String → List String
chars String.[] = []
chars (String.◌∷◌ c text) = String.◌∷◌ c String.[] ∷ chars text

abbrev keys : Fields → List String
keys end = []
keys (field k _ fs) = k ∷ keys fs

abbrev pub not_iterable : String → Raise
not_iterable type_name = other "TypeError" ("'" <> (type_name <> "' object is not iterable"))

-- The texts that an iteration over a value gives.
unfoldable pub iterated_texts : Json → Result (List String)
unfolding string_members
iterated_texts (arr xs) = ok (string_members (arr xs))
iterated_texts (obj fs) = ok (keys fs)
iterated_texts (str s) = ok (chars s)
iterated_texts null = raised (not_iterable "NoneType")
iterated_texts (bool b) = raised (not_iterable "bool")
iterated_texts (int i) = raised (not_iterable "int")
iterated_texts (float s) = raised (not_iterable "float")

-- `{grant for grant in allowed_tools or () if isinstance(grant, str)}`
unfoldable pub grants_of : Json → Result (List String)
unfolding truthy iterated_texts
grants_of allowed_tools = if truthy allowed_tools then iterated_texts allowed_tools else ok []

unfoldable pub advertised_step_types : Json → Result (List String)
unfolding is_advertised grants_of
advertised_step_types allowed_tools = do
  grants ← grants_of allowed_tools
  ok (filter_if (is_advertised grants) allowed_step_types)

-- Tools as a run declares to store them: a list, or else a value that counts as false, such as null.
pub data IsGrantList (v : Json) : Type 0 where
  is_list : (xs : Items) → v ≡ arr xs → IsGrantList v
  empty : truthy v ≡ false → IsGrantList v

arr-texts : (xs : Items) → grants_of (arr xs) ≡ ok (string_members (arr xs))
unfolding grants_of iterated_texts truthy string_members
arr-texts nil = refl
arr-texts (cons v xs) = refl

false-no_texts : (v : Json) → truthy v ≡ false → string_members v ≡ []
unfolding truthy string_members
false-no_texts (arr nil) h = refl
false-no_texts (arr (cons v xs)) h = absurd (cc h)
false-no_texts v h = refl

pub grants_of-list : (v : Json) → IsGrantList v → grants_of v ≡ ok (string_members v)
unfolding grants_of
grants_of-list v (is_list xs is) = rw is (arr-texts xs)
grants_of-list v (empty h) = rw (h, false-no_texts v h) refl

granted_iff :
    (run : Run) (step : Step)
    → (is_granted (string_members run.allowed_tools_json) (required_grant step.type) ≡ true)
      ↔ (permission_block_reason step run ≡ none)
unfolding granted_tools
granted_iff run step = (
  λ granted. (permission_iff step run).1 (λ grant needs. ground (arith, needs)),
  λ permitted. elim (Option-cases (required_grant step.type)) [
    | inl free ↦ rw free refl
    | inr (grant, needs) ↦ rw needs ((permission_iff step run).0 permitted grant needs)
  ],
)

filtered_iff :
    (types never : List String) (run : Run) (step : Step) (p : String → Bool)
    → p step.type ≡ (
        not (contains never step.type)
        && is_granted (string_members run.allowed_tools_json) (required_grant step.type))
    → (contains (filter_if p types) step.type ≡ true) ↔ (
        (contains types step.type ≡ true)
        × (contains never step.type ≡ false)
        × (permission_block_reason step run ≡ none))
filtered_iff types never run step p e =
    let (grants, permits) = granted_iff run step in
    (
      λ h. ground (arith, e, contains-filter_if p types step.type, grants),
      λ h. ground (arith, e, contains-filter_if p types step.type, permits),
    )

-- For a run whose stored tools are a list, or null or another value that counts as false, the prompt
-- advertises exactly the contract's types that are not in the list of those it never names and whose
-- steps the run's permission gate lets pass: it never offers a step that would be skipped for want of
-- a grant, nor hides one that could run.
pub advertised_iff :
    (run : Run)
    → IsGrantList run.allowed_tools_json
    → (types : List String) × (advertised_step_types run.allowed_tools_json ≡ ok types)
      × ((step : Step)
          → (contains types step.type ≡ true) ↔ (
              (contains allowed_step_types step.type ≡ true)
              × (contains never_advertised_step_types step.type ≡ false)
              × (permission_block_reason step run ≡ none)))
unfolding advertised_step_types is_advertised
advertised_iff run stored =
    let grants = string_members run.allowed_tools_json in
    (
      filter_if (is_advertised grants) allowed_step_types,
      rw (grants_of-list run.allowed_tools_json stored) refl,
      λ step.
          filtered_iff allowed_step_types never_advertised_step_types run step
            (is_advertised grants) refl,
    )
