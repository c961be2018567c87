-- ===== src/Planning/Steps.antt =====
-- slimx_agent/planning.py, `repair_plan_data`: what a repaired step is, and that repairing it
-- again changes nothing.
use slimx_agent.Prelude.{
  ℕ, suc, String, ◌==◌, ◌≡◌, refl, ap, ◌∙◌, ◌≢◌, ◌⊎◌, inl, inr, true, false, List, [], ◌∷◌,
  contains, arith, eq_iff, Bool-cases,
}
use slimx_agent.Json.{str, obj, Items, nil, cons, Fields, get}
use slimx_agent.Planning.Repair.{
  text_of, is_allowed_type, aliases, adopt, with_instruction, with_title, repair_step, repair_steps,
}
use slimx_agent.Planning.Titles.{
  get-set, text_again, not-nil, nil-not, with_title-Titled, with_title_fixed, get-with_title,
  get-with_instruction,
}

-- No alias holds text.
abbrev AllBlank : List String → Fields → Type 0
AllBlank [] raw = Unit
AllBlank (x ∷ names) raw = (text_of (get x raw) ≡ "") × AllBlank names raw

-- The instruction says something, or nothing in the step could.
abbrev pub Instructed : Fields → Type 0
Instructed raw = (text_of (get "instruction" raw) ≢ "") ⊎ AllBlank aliases raw

adopt_lem :
    (names : List String) (raw : Fields)
    → (text_of (get "instruction" (adopt names raw)) ≢ "")
      ⊎ (adopt names raw ≡ raw) × AllBlank names raw
unfolding adopt
adopt_lem [] raw = inr (refl, tt)
adopt_lem (x ∷ names) raw = elim (Bool-cases (text_of (get x raw) == "")) [
  | inl blank ↦ rw blank (elim (adopt_lem names raw) [
    | inl says ↦ inl says
    | inr (same, all) ↦ inr (same, ((eq_iff (text_of (get x raw)) "").0 blank, all))
  ])
  | inr says ↦
      rw (says, get-set "instruction" "instruction" (str (text_of (get x raw))) raw)
        (inl (text_again (get x raw) (not-nil says)))
]

adopt_fixed : (names : List String) (raw : Fields) → AllBlank names raw → adopt names raw ≡ raw
unfolding adopt
adopt_fixed [] raw b = refl
adopt_fixed (x ∷ names) raw b = rw b.0 (adopt_fixed names raw b.1)

with_instruction-Instructed : (raw : Fields) → Instructed (with_instruction raw)
unfolding with_instruction
with_instruction-Instructed raw = elim (Bool-cases (text_of (get "instruction" raw) == "")) [
  | inl blank ↦
      rw blank
        (elim (adopt_lem aliases raw) [ inl says ↦ inl says | inr (same, all) ↦ rw same (inr all) ])
  | inr says ↦ rw says (inl (not-nil says))
]

with_instruction_fixed : (raw : Fields) → Instructed raw → with_instruction raw ≡ raw
unfolding with_instruction
with_instruction_fixed raw (inl says) = rw (nil-not says) refl
with_instruction_fixed raw (inr all) = elim (Bool-cases (text_of (get "instruction" raw) == "")) [
  | inl blank ↦ rw blank (adopt_fixed aliases raw all)
  | inr says ↦ rw says refl
]

AllBlank-with_title :
    (names : List String) (n : ℕ) (raw : Fields)
    → contains names "title" ≡ false
    → AllBlank names raw
    → AllBlank names (with_title n raw)
unfolding contains
AllBlank-with_title [] n raw other b = tt
AllBlank-with_title (x ∷ names) n raw other b = (
  rw (get-with_title n raw x (ground (arith, eq_iff x "title", eq_iff "title" x))) b.0,
  AllBlank-with_title names n raw (ground arith) b.1,
)

Instructed-with_title : (n : ℕ) (raw : Fields) → Instructed raw → Instructed (with_title n raw)
unfolding contains
Instructed-with_title n raw (inl says) = inl (rw (get-with_title n raw "instruction" refl) says)
Instructed-with_title n raw (inr all) = inr (AllBlank-with_title aliases n raw refl all)

-- A step that needs no repair: of a contract type, with a title, and with an instruction unless it
-- holds no text that could be one.
pub record IsReady (fs : Fields) : Type 0 where
  pub allowed : is_allowed_type (get "type" fs) ≡ true
  pub titled : text_of (get "title" fs) ≢ ""
  pub instructed : Instructed fs

-- What the repair of a step leaves as it is: every field but the title and the instruction, an
-- instruction that says something, and a title that does.
pub repair_step_keeps :
    (n : ℕ) (raw : Fields)
    → ((key : String)
        → ("title" == key) ≡ false
        → ("instruction" == key) ≡ false
        → get key (repair_step n raw) ≡ get key raw)
      × (text_of (get "instruction" raw) ≢ ""
          → get "instruction" (repair_step n raw) ≡ get "instruction" raw)
      × (text_of (get "title" raw) ≢ "" → get "title" (repair_step n raw) ≡ get "title" raw)
unfolding repair_step
repair_step_keeps n raw = (
  λ key title instruction.
      get-with_title n (with_instruction raw) key title ∙ get-with_instruction raw key instruction,
  λ says.
      get-with_title n (with_instruction raw) "instruction" refl
      ∙ ap (get "instruction") (with_instruction_fixed raw (inl says)),
  λ titled.
      let same = get-with_instruction raw "title" refl in
      ap (get "title") (with_title_fixed n (with_instruction raw) (rw same titled)) ∙ same,
)

repair_step-IsReady :
    (n : ℕ) (raw : Fields) → is_allowed_type (get "type" raw) ≡ true → IsReady (repair_step n raw)
repair_step-IsReady n raw h = record {
  allowed = rw ((repair_step_keeps n raw).0 "type" refl refl) h;
  titled = unfold repair_step in with_title-Titled n (with_instruction raw);
  instructed =
      unfold repair_step in
      Instructed-with_title n (with_instruction raw) (with_instruction-Instructed raw);
}

repair_step_fixed : (n : ℕ) (raw : Fields) → IsReady raw → repair_step n raw ≡ raw
unfolding repair_step
repair_step_fixed n raw r =
    rw (with_instruction_fixed raw r.instructed) (with_title_fixed n raw r.titled)

abbrev pub AllReady : Items → Type 0
AllReady nil = Unit
AllReady (cons (obj fs) vs) = IsReady fs × AllReady vs
AllReady (cons _ vs) = ⊥

pub repair_steps-AllReady : (n : ℕ) (vs : Items) → AllReady (repair_steps n vs)
unfolding repair_steps
repair_steps-AllReady n nil = tt
repair_steps-AllReady n (cons (obj raw) vs) = elim (Bool-cases (is_allowed_type (get "type" raw))) [
  | inl allowed ↦ rw allowed (repair_step-IsReady n raw allowed, repair_steps-AllReady (suc n) vs)
  | inr other ↦ rw other (repair_steps-AllReady n vs)
]
repair_steps-AllReady n (cons v vs) = repair_steps-AllReady n vs

pub repair_steps_fixed : (n : ℕ) (vs : Items) → AllReady vs → repair_steps n vs ≡ vs
unfolding repair_steps
repair_steps_fixed n nil r = refl
repair_steps_fixed n (cons (obj fs) vs) r =
    rw (r.0.allowed, repair_step_fixed n fs r.0, repair_steps_fixed (suc n) vs r.1) refl
repair_steps_fixed n (cons v vs) r = absurd r
