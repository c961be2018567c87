-- ===== src/Planning/Titles.antt =====
-- slimx_agent/planning.py, `repair_plan_data`: titles and instructions of a repaired step.
use slimx_agent.Prelude.{
  is_space, ℕ, suc, String, ◌<>◌, ◌==◌, ◌≡◌, refl, sym, ap, subst, ◌∙◌, ◌≢◌, inl, inr, true, false,
  List, [], ◌∷◌, if◌then◌else◌, strip, clip, show, arith, eq_iff, Bool-cases,
}
use text.Mathlib.TextLemmas.{cons-append}
use slimx_agent.Json.{Json, null, str, Fields, end, field, get, set}
use slimx_agent.Json.Text.{truthy, py_str}
use slimx_agent.Planning.Blank.{Visible, Visible-ne-nil, strip-Visible, Visible-strip, clip-Visible}
use slimx_agent.Planning.Repair.{
  text_of, aliases, adopt, with_instruction, title_or_name, or_step, with_title,
}

pub get-set :
    (k j : String) (v : Json) (fs : Fields) → get j (set k v fs) ≡ (if k == j then v else get j fs)
unfolding get set
get-set k j v end = refl
get-set k j v (field i w fs) = ground (arith, eq_iff k j, eq_iff i k, eq_iff i j, get-set k j v fs)

-- Writing what is there already, under a key that is there, changes nothing.
pub set_same : (k : String) (v : Json) (fs : Fields) → get k fs ≡ v → v ≢ null → set k v fs ≡ fs
unfolding get set
set_same k v end e present = absurd (present (sym e))
set_same k v (field i w fs) e present = elim (Bool-cases (i == k)) [
  | inl here ↦ rw here (ap (λ (u : Json). field i u fs) (sym (rw here at e)))
  | inr there ↦
      rw there (ap (λ (rest : Fields). field i w rest) (set_same k v fs (rw there at e) present))
]

strip_nil : strip "" ≡ ""
unfolding strip
strip_nil = refl

-- A repaired text is one that stripping leaves something of.
stripped-text : (s : String) → strip s ≢ "" → text_of (str s) ≢ ""
unfolding text_of truthy py_str
stripped-text s h = elim (Bool-cases (s == "")) [
  | inl empty ↦ absurd (h (ap strip ((eq_iff s "").0 empty) ∙ strip_nil))
  | inr given ↦ rw given h
]

text_of-Visible : (v : Json) → text_of v ≢ "" → Visible (text_of v)
unfolding text_of
text_of-Visible v h = elim (Bool-cases (truthy v)) [
  | inl said ↦ rw said (strip-Visible (py_str v) (rw said at h))
  | inr unsaid ↦ absurd ((rw unsaid at h) refl)
]

pub text_again : (v : Json) → text_of v ≢ "" → text_of (str (text_of v)) ≢ ""
text_again v h = stripped-text (text_of v) (Visible-strip (text_of v) (text_of-Visible v h))

truthy-text : (v : Json) → text_of v ≢ "" → truthy v ≡ true
unfolding text_of
truthy-text v h = elim (Bool-cases (truthy v)) [
  | inl said ↦ said
  | inr unsaid ↦ absurd ((rw unsaid at h) refl)
]

truthy-str : (s : String) → s ≢ "" → truthy (str s) ≡ true
unfolding truthy
truthy-str s h = ground (arith, eq_iff s "")

-- The text that a title falls back to can be read again.
fallback : (v : Json) (n : ℕ) → Visible (or_step (clip 60 (text_of v)) n)
unfolding clip is_space
fallback v n = elim (Bool-cases (text_of v == "")) [
  | inl none ↦ rw ((eq_iff (text_of v) "").0 none) (step_visible (show n))
  | inr some ↦
      let visible =
        clip-Visible 59 (text_of v)
          (text_of-Visible v (λ e. ground (arith, eq_iff (text_of v) ""))) in
      kept_title (clip 60 (text_of v)) visible
]
  where
    step_visible : (t : String) → Visible ("Step " <> t)
    step_visible t = subst Visible (sym (cons-append "S" "tep " t)) refl

    kept_title : (t : String) → Visible t → Visible (or_step t n)
    kept_title t visible = elim (Bool-cases (t == "")) [
      | inl empty ↦ absurd (Visible-ne-nil t visible ((eq_iff t "").0 empty))
      | inr given ↦ rw given visible
    ]

-- A title that the repair leaves alone.
abbrev Titled : Fields → Type 0
Titled fs = text_of (get "title" fs) ≢ ""

text_of-Visible-str : (s : String) → Visible s → text_of (str s) ≢ ""
text_of-Visible-str s v = stripped-text s (Visible-strip s v)

pub not-nil : {s : String} → (s == "") ≡ false → s ≢ ""
not-nil {s} h e = ground (arith, eq_iff s "")

pub nil-not : {s : String} → s ≢ "" → (s == "") ≡ false
nil-not {s} h = ground (arith, eq_iff s "")

pub with_title-Titled : (n : ℕ) (raw : Fields) → Titled (with_title n raw)
unfolding with_title
with_title-Titled n raw = elim (Bool-cases (text_of (title_or_name raw) == "")) [
  | inl untitled ↦
      rw
        (
          untitled,
          get-set "title" "title"
              (str (or_step (clip 60 (text_of (get "instruction" raw))) (suc n))) raw,
        )
        (text_of-Visible-str _ (fallback (get "instruction" raw) (suc n)))
  | inr titled ↦ rw titled (elim (Bool-cases (truthy (get "title" raw))) [
    | inl said ↦ rw said (not-nil (rw said at titled))
    | inr unsaid ↦
        rw (unsaid, get-set "title" "title" (str (text_of (get "name" raw))) raw)
          (text_again (get "name" raw) (not-nil (rw unsaid at titled)))
  ])
]

pub with_title_fixed : (n : ℕ) (raw : Fields) → Titled raw → with_title n raw ≡ raw
unfolding with_title
with_title_fixed n raw t = let said = truthy-text (get "title" raw) t in rw (said, nil-not t) refl

pub get-with_title :
    (n : ℕ) (raw : Fields) (key : String)
    → ("title" == key) ≡ false
    → get key (with_title n raw) ≡ get key raw
unfolding with_title
get-with_title n raw key other = ground (
  arith,
  get-set "title" key (str (or_step (clip 60 (text_of (get "instruction" raw))) (suc n))) raw,
  get-set "title" key (str (text_of (title_or_name raw))) raw,
)

pub get-adopt :
    (names : List String) (raw : Fields) (key : String)
    → ("instruction" == key) ≡ false
    → get key (adopt names raw) ≡ get key raw
unfolding adopt
get-adopt [] raw key other = refl
get-adopt (x ∷ names) raw key other = ground (
  arith,
  get-adopt names raw key other,
  get-set "instruction" key (str (text_of (get x raw))) raw,
)

pub get-with_instruction :
    (raw : Fields) (key : String)
    → ("instruction" == key) ≡ false
    → get key (with_instruction raw) ≡ get key raw
unfolding with_instruction
get-with_instruction raw key other = ground (arith, get-adopt aliases raw key other)
