-- ===== src/Planning/Blank.antt =====
-- slimx_agent/planning.py: texts that `strip` leaves something of.
use slimx_agent.Prelude.{
  ℕ, suc, String, ◌≡◌, refl, ◌≢◌, false, strip, lstrip, rstrip, is_space, clip, Bool-cases, inl,
  inr, ◌⊎◌, ap, ◌∙◌,
}

-- The first character is no blank.
abbrev pub Visible : String → Type 0
Visible String.[] = ⊥
Visible (String.◌∷◌ c s) = is_space c ≡ false

strip_parts : (s : String) → strip s ≡ rstrip (lstrip s)
unfolding strip
strip_parts s = refl

-- `lstrip` leaves nothing, or a first character that is no blank, which `rstrip` keeps.
lstrip-Visible : (s : String) → (lstrip s ≡ "") ⊎ Visible (lstrip s)
unfolding lstrip
lstrip-Visible String.[] = inl refl
lstrip-Visible (String.◌∷◌ c s) = elim (Bool-cases (is_space c)) [
  | inl blank ↦ rw blank (lstrip-Visible s)
  | inr plain ↦ rw plain (inr plain)
]

rstrip-Visible : (s : String) → Visible s → Visible (rstrip s)
unfolding rstrip
rstrip-Visible String.[] v = v
rstrip-Visible (String.◌∷◌ c s) v = rw v v

rstrip-nil : rstrip "" ≡ ""
unfolding rstrip
rstrip-nil = refl

pub Visible-ne-nil : (s : String) → Visible s → s ≢ ""
Visible-ne-nil String.[] v e = v
Visible-ne-nil (String.◌∷◌ c s) v e = cc

pub strip-Visible : (s : String) → strip s ≢ "" → Visible (strip s)
strip-Visible s h = elim (lstrip-Visible s) [
  | inl nothing ↦ absurd (h (strip_parts s ∙ ap rstrip nothing ∙ rstrip-nil))
  | inr v ↦ rw (strip_parts s) (rstrip-Visible (lstrip s) v)
]

lstrip_fixed : (s : String) → Visible s → lstrip s ≡ s
unfolding lstrip
lstrip_fixed String.[] v = refl
lstrip_fixed (String.◌∷◌ c s) v = rw v refl

pub Visible-strip : (s : String) → Visible s → strip s ≢ ""
Visible-strip s v =
    rw (strip_parts s, lstrip_fixed s v) (Visible-ne-nil (rstrip s) (rstrip-Visible s v))

pub clip-Visible : (n : ℕ) (s : String) → Visible s → Visible (clip (suc n) s)
unfolding clip
clip-Visible n String.[] v = v
clip-Visible n (String.◌∷◌ c s) v = v
