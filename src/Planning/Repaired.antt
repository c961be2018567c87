-- ===== src/Planning/Repaired.antt =====
-- slimx_agent/planning.py, `repair_plan_data`: what a repaired plan is, and that repairing it again
-- changes nothing.
use slimx_agent.Prelude.{zero, String, ◌==◌, ◌≡◌, refl, ap, ◌∙◌, subst, ◌≢◌, false, arith}
use slimx_agent.Json.{Json, null, arr, obj, Items, Fields, get, set, of_strings, string_members}
use slimx_agent.Policies.Gate.{strings_of-of_strings}
use slimx_agent.Planning.Repair.{
  repair_steps, texts_in, steps_in, with_assumptions, with_steps, repair_plan_data,
}
use slimx_agent.Planning.Salvaged.{Salvages, repair_steps-Salvages}
use slimx_agent.Planning.Titles.{get-set, set_same}
use slimx_agent.Planning.Steps.{AllReady, repair_steps-AllReady, repair_steps_fixed}

-- A repaired plan: an object that holds the steps salvaged from the plan, ready, the texts among
-- its assumptions, and every other field as it was.
pub record Repaired (fs fs' : Fields) : Type 0 where
  pub steps : Items
  pub has_steps : get "steps" fs' ≡ arr steps
  pub ready : AllReady steps
  pub salvaged : Salvages (steps_in (get "steps" fs)) steps
  pub has_assumptions :
      get "assumptions" fs' ≡ arr (of_strings (string_members (get "assumptions" fs)))
  pub others :
      (key : String)
      → ("steps" == key) ≡ false
      → ("assumptions" == key) ≡ false
      → get key fs' ≡ get key fs

texts_in_texts : (v : Json) → texts_in v ≡ of_strings (string_members v)
unfolding string_members
texts_in_texts (arr vs) = refl
texts_in_texts v = refl

plan_of : Fields → Fields
plan_of fs = with_steps (with_assumptions fs)

plan_of-Repaired : (fs : Fields) → Repaired fs (plan_of fs)
unfolding plan_of with_steps with_assumptions
plan_of-Repaired fs =
    let texts : Json = arr (texts_in (get "assumptions" fs)) in
    let g : Fields = set "assumptions" texts fs in
    let steps : Items = repair_steps zero (steps_in (get "steps" g)) in
    record {
      steps = steps;
      has_steps = get-set "steps" "steps" (arr steps) g;
      ready = repair_steps-AllReady zero (steps_in (get "steps" g));
      salvaged =
          subst (λ (v : Json). Salvages (steps_in v) steps) (get-set "assumptions" "steps" texts fs)
            (repair_steps-Salvages zero (steps_in (get "steps" g)));
      has_assumptions =
          get-set "steps" "assumptions" (arr steps) g
          ∙ get-set "assumptions" "assumptions" texts fs
          ∙ ap arr (texts_in_texts (get "assumptions" fs));
      others = λ key s a.
          ground (arith, get-set "steps" key (arr steps) g, get-set "assumptions" key texts fs);
    }

-- A plan that is repaired already stays as it is.
plan_of_fixed : (fs fs' : Fields) → Repaired fs fs' → plan_of fs' ≡ fs'
unfolding plan_of with_steps with_assumptions
plan_of_fixed fs fs' r =
    rw
      (
        r.has_assumptions,
        strings_of-of_strings (string_members (get "assumptions" fs)),
        set_same "assumptions" (arr (of_strings (string_members (get "assumptions" fs)))) fs'
            r.has_assumptions arr-ne-null,
        r.has_steps,
        repair_steps_fixed zero r.steps r.ready,
      )
      (set_same "steps" (arr r.steps) fs' r.has_steps arr-ne-null)
  where
    arr-ne-null : {vs : Items} → arr vs ≢ null
    arr-ne-null e = cc

-- The repair of an object gives a repaired plan. Its steps are the objects of a contract type among
-- the plan's steps, in their order, with every field but a title and an instruction that said nothing
-- as it was; each has a title, and an instruction unless nothing in it could be one. The assumptions
-- are the texts among the plan's, and every other field of the plan stays.
pub repair_plan_data-Repaired :
    (fs : Fields) → (fs' : Fields) × (repair_plan_data (obj fs) ≡ obj fs') × Repaired fs fs'
unfolding repair_plan_data plan_of
repair_plan_data-Repaired fs = (plan_of fs, refl, plan_of-Repaired fs)

-- Repairing a plan again changes nothing.
pub repair_plan_data_idem :
    (value : Json) → repair_plan_data (repair_plan_data value) ≡ repair_plan_data value
unfolding repair_plan_data plan_of
repair_plan_data_idem (obj fs) = ap obj (plan_of_fixed fs (plan_of fs) (plan_of-Repaired fs))
repair_plan_data_idem v = refl
