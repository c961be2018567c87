-- ===== src/Engine/Progress/Open.antt =====
-- slimx_agent/engine.py: how many of the stored steps are open, under the writes of their
-- states.
use slimx_agent.Prelude.{
  ℕ, ◌+◌, ◌≤◌, ◌<◌, String, ◌==◌, Bool, true, false, some, List, [], ◌∷◌, ◌≡◌, refl, ap, sym, subst,
  ◌⊎◌, ◌≢◌, ◌||◌, if◌then◌else◌, contains, count_if, find_first, arith, eq_iff, Bool-cases, inl,
  inr, ◌∙◌,
}
use slimx_agent.Store.{Step}
use slimx_agent.Policies.Normalize.{Distinct}
use slimx_agent.Engine.Gates.{is_open, next_step}
use slimx_agent.Engine.Progress.Updates.{mark, update, ids, opened, Alike}

-- Whether a step is open, as a number.
abbrev pub weight : Step → ℕ
weight s = if is_open s then 1 else 0

opened-cons : (s : Step) (steps : List Step) → opened (s ∷ steps) ≡ weight s + opened steps
unfolding count_if
opened-cons s steps = ground arith

weight_le : (s : Step) → weight s ≤ 1
weight_le s = ground arith

mark-closed :
    (id status : String) (s : Step)
    → contains ("completed" ∷ "skipped" ∷ []) status ≡ true
    → (weight (mark id status s) ≤ weight s) × (s.id ≡ id → weight (mark id status s) ≡ 0)
unfolding mark
mark-closed id status s c = ground (arith, c, eq_iff s.id id)

mark-other : (id status : String) (s : Step) → (s.id == id) ≡ false → mark id status s ≡ s
unfolding mark
mark-other id status s e = rw e refl

mark-open :
    (id status : String) (s : Step)
    → contains ("completed" ∷ "skipped" ∷ []) status ≡ false
    → (weight s ≤ weight (mark id status s)) × (weight s ≡ 1 → weight (mark id status s) ≡ 1)
unfolding mark
mark-open id status s c = ground (arith, c, eq_iff s.id id)

-- Closing a step leaves no more steps open than before, and fewer if the step was open.
update-closed_le :
    (id status : String) (steps : List Step)
    → contains ("completed" ∷ "skipped" ∷ []) status ≡ true
    → opened (update id status steps) ≤ opened steps
unfolding update
update-closed_le id status [] c = omega arith
update-closed_le id status (s ∷ steps) c = omega (
  arith,
  opened-cons s steps,
  opened-cons (mark id status s) (update id status steps),
  (mark-closed id status s c).0,
  update-closed_le id status steps c,
)

-- The first open step is the head, or the head is closed.
next_step-cons :
    (s : Step) (steps : List Step) (step : Step)
    → next_step (s ∷ steps) ≡ some step
    → ((weight s ≡ 1) × (s ≡ step)) ⊎ ((weight s ≡ 0) × (next_step steps ≡ some step))
unfolding next_step find_first
next_step-cons s steps step e = elim (Bool-cases (is_open s)) [
  | inl here ↦ inl (ground arith, ground (arith, e, here))
  | inr later ↦ inr (ground arith, ground (arith, e, later))
]

next_step-nil : (step : Step) → next_step [] ≢ some step
unfolding next_step find_first
next_step-nil step e = cc

update-closed_lt :
    (status : String) (steps : List Step) (step : Step)
    → contains ("completed" ∷ "skipped" ∷ []) status ≡ true
    → next_step steps ≡ some step
    → opened (update step.id status steps) < opened steps
unfolding update
update-closed_lt status [] step c e = absurd (next_step-nil step e)
update-closed_lt status (s ∷ steps) step c e =
    let (lower, zero_there) = mark-closed step.id status s c in
    let split = opened-cons s steps in
    let split' = opened-cons (mark step.id status s) (update step.id status steps) in
    elim (next_step-cons s steps step e) [
      | inl (counted, same) ↦ omega (
        arith,
        zero_there (ap (λ (t : Step). t.id) same),
        update-closed_le step.id status steps c,
      )
      | inr (closed, e') ↦ omega (arith, update-closed_lt status steps step c e')
    ]

update-open_le :
    (id status : String) (steps : List Step)
    → contains ("completed" ∷ "skipped" ∷ []) status ≡ false
    → opened steps ≤ opened (update id status steps)
unfolding update
update-open_le id status [] c = omega arith
update-open_le id status (s ∷ steps) c = omega (
  arith,
  opened-cons s steps,
  opened-cons (mark id status s) (update id status steps),
  (mark-open id status s c).0,
  update-open_le id status steps c,
)

update-absent :
    (id status : String) (steps : List Step)
    → contains (ids steps) id ≡ false
    → update id status steps ≡ steps
unfolding update contains
update-absent id status [] absent = refl
update-absent id status (s ∷ steps) absent =
    let (other, rest) = parts (s.id == id) (contains (ids steps) id) absent in
    ap (λ (t : Step). t ∷ update id status steps) (mark-other id status s other)
    ∙ ap (λ (l : List Step). s ∷ l) (update-absent id status steps rest)
  where
    parts : (a b : Bool) → (a || b) ≡ false → (a ≡ false) × (b ≡ false)
    parts a b e = ground arith

next_step-known :
    (steps : List Step) (step : Step)
    → next_step steps ≡ some step
    → contains (ids steps) step.id ≡ true
unfolding contains
next_step-known [] step e = absurd (next_step-nil step e)
next_step-known (s ∷ steps) step e = elim (next_step-cons s steps step e) [
  | inl (counted, same) ↦ ground (arith, eq_iff s.id step.id, ap (λ (t : Step). t.id) same)
  | inr (closed, e') ↦ ground (arith, next_step-known steps step e')
]

true-ne-false : true ≢ false
true-ne-false e = cc

-- The first open step may move between open states, where no other step has its id.
update-open_eq :
    (status : String) (steps : List Step) (step : Step)
    → Distinct (ids steps)
    → next_step steps ≡ some step
    → opened (update step.id status steps) ≤ opened steps
unfolding update
update-open_eq status [] step d e = absurd (next_step-nil step e)
update-open_eq status (s ∷ steps) step d e =
    let split = opened-cons s steps in
    let split' = opened-cons (mark step.id status s) (update step.id status steps) in
    elim (next_step-cons s steps step e) [
      | inl (counted, same) ↦ omega (
        arith,
        weight_le (mark step.id status s),
        ap opened (
            update-absent step.id status steps
              (subst (λ (t : Step). contains (ids steps) t.id ≡ false) same d.0)),
      )
      | inr (closed, e') ↦ omega (
        arith,
        ap weight
            (mark-other step.id status s (apart s step steps d.0 (next_step-known steps step e'))),
        update-open_eq status steps step d.1 e',
      )
    ]
  where
    clash :
        (s step : Step) (steps : List Step)
        → contains (ids steps) s.id ≡ false
        → contains (ids steps) step.id ≡ true
        → s.id ≢ step.id
    clash s step steps absent present same =
        true-ne-false
          (sym present ∙ ap (λ (id : String). contains (ids steps) id) (sym same) ∙ absent)

    apart :
        (s step : Step) (steps : List Step)
        → contains (ids steps) s.id ≡ false
        → contains (ids steps) step.id ≡ true
        → (s.id == step.id) ≡ false
    apart s step steps absent present = elim (Bool-cases (s.id == step.id)) [
      | inl same ↦ absurd (clash s step steps absent present ((eq_iff s.id step.id).0 same))
      | inr other ↦ other
    ]

module _ (steps now : List Step) (step : Step) (chosen : next_step steps ≡ some step)
    (alike : Alike step.id now steps) where
  -- Whatever state the chosen step has got, no more steps are open than when it was chosen.
  pub Alike-opened : Distinct (ids steps) → opened now ≤ opened steps
  Alike-opened distinct = omega (
    arith,
    update-open_le step.id "running" now (unfold contains in refl),
    ap opened (alike "running"),
    update-open_eq "running" steps step distinct chosen,
  )

  -- Once it is closed, fewer are.
  pub Alike-closed :
      (status : String)
      → contains ("completed" ∷ "skipped" ∷ []) status ≡ true
      → opened (update step.id status now) < opened steps
  Alike-closed status c =
      subst (λ (l : List Step). opened l < opened steps) (sym (alike status))
        (update-closed_lt status steps step c chosen)
