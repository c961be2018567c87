-- ===== src/Engine/Progress/Updates.antt =====
-- slimx_agent/engine.py: the stored steps under the writes of their states: what they leave
-- alike.
use slimx_agent.Prelude.{
  ℕ, String, ◌==◌, List, [], ◌∷◌, ◌≡◌, refl, ap, sym, if◌then◌else◌, count_if, arith, Bool-cases,
  inl, inr, ◌∙◌,
}
use slimx_agent.Store.{Step}
use slimx_agent.Engine.Gates.{is_open}

-- A write of a state, on one step and on the stored steps.
unfoldable pub mark : String → String → Step → Step
mark id status s = if s.id == id then record s { status = status } else s

unfoldable pub update : String → String → List Step → List Step
unfolding mark
update id status [] = []
update id status (s ∷ steps) = mark id status s ∷ update id status steps

abbrev pub ids : List Step → List String
ids [] = []
ids (s ∷ steps) = s.id ∷ ids steps

abbrev pub opened : List Step → ℕ
opened steps = count_if is_open steps

-- Two lists of steps that differ at most in the status of one step.
abbrev pub Alike : String → List Step → List Step → Type 0
Alike id steps others = (status : String) → update id status steps ≡ update id status others

pub mark-mark :
    (id status before : String) (s : Step) → mark id status (mark id before s) ≡ mark id status s
unfolding mark
mark-mark id status before s = elim (Bool-cases (s.id == id)) [
  | inl same ↦ rw same (rw same refl)
  | inr other ↦ rw other (rw other refl)
]

pub update-update :
    (id status before : String) (steps : List Step)
    → update id status (update id before steps) ≡ update id status steps
unfolding update
update-update id status before [] = refl
update-update id status before (s ∷ steps) =
    ap (λ (t : Step). t ∷ update id status (update id before steps)) (mark-mark id status before s)
    ∙ ap (λ (l : List Step). mark id status s ∷ l) (update-update id status before steps)

pub Alike-update :
    (id status : String) (steps : List Step) → Alike id (update id status steps) steps
Alike-update id status steps next = update-update id next status steps

pub mark-id : (id status : String) (s : Step) → (mark id status s).id ≡ s.id
unfolding mark
mark-id id status s = ground arith

pub ids-update : (id status : String) (steps : List Step) → ids (update id status steps) ≡ ids steps
unfolding update
ids-update id status [] = refl
ids-update id status (s ∷ steps) =
    ap (λ (t : String). t ∷ ids (update id status steps)) (mark-id id status s)
    ∙ ap (λ (l : List String). s.id ∷ l) (ids-update id status steps)

pub Alike-ids :
    (id : String) (steps others : List Step) → Alike id steps others → ids steps ≡ ids others
Alike-ids id steps others alike =
    sym (ids-update id "" steps) ∙ ap ids (alike "") ∙ ids-update id "" others
