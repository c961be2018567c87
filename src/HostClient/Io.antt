-- ===== src/HostClient/Io.antt =====
-- slimx_agent/host_client.py: a call that works on a world: it returns or raises, and leaves a new world.
use slimx_agent.Outcomes.{Result, ok, raised}

abbrev pub Io : Type 0 → Type 0 → Type 0
Io W A = W → Result A × W

module _ {W : Type 0} where
  abbrev pub lift : {A : Type 0} → Result A → Io W A
  lift r w = (r, w)

  abbrev pub return : {A : Type 0} → A → Io W A
  return a w = (ok a, w)

  infixl 5 ◌>>=◌ ◌>>◌
  unfoldable pub ◌>>=◌ : {A B : Type 0} → Io W A → (A → Io W B) → Io W B
  ◌>>=◌ m f w = let (r, w') = m w in elim r [ ok a ↦ f a w' | raised e ↦ (raised e, w') ]

  abbrev pub ◌>>◌ : {A B : Type 0} → Io W A → Io W B → Io W B
  m >> k = m >>= λ _. k
