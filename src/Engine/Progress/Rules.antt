-- ===== src/Engine/Progress/Rules.antt =====
-- slimx_agent/engine.py: what an action of a drive does to the stored steps, where it returns.
use slimx_agent.Prelude.{ℕ, Bool, true, false, ◌≡◌, refl, List, ◌∷◌, if◌then◌else◌, sym, subst}
use slimx_agent.Store.{Step}
use slimx_agent.Outcomes.{Raise, Result, ok, raised}
use slimx_agent.Engine.Host.{Call}
use slimx_agent.Engine.Monad.{State, M, pure, raise, ◌>>=◌, perform, answered, ask, attempt}

-- What a world holds: the steps of the run, and how often its host will still prepare an action
-- anew instead of executing it.
pub record View (W : Type 0) : Type 0 where
  pub steps_of : W → List Step
  pub preparations : W → ℕ

abbrev pub Assertion : Type 1
Assertion = List Step → ℕ → Type 0

abbrev pub Any : Assertion
Any steps left = Unit

module _ {W : Type 0} (v : View W) where
  abbrev pub Ends : {A : Type 0} → (A → Assertion) → Result A × State W → Type 0
  Ends Q (ok a, s) = Q a (v.steps_of s.world) (v.preparations s.world)
  Ends Q (raised e, s) = Unit

  pub record Runs {A : Type 0} (P : Assertion) (m : M W A) (Q : A → Assertion) : Type 0 where
    pub at : (s : State W) → P (v.steps_of s.world) (v.preparations s.world) → Ends Q (m s)

  -- A world that holds what another does.
  pub record Same (w w' : W) : Type 0 where
    pub steps : v.steps_of w' ≡ v.steps_of w
    pub left : v.preparations w' ≡ v.preparations w

  pub Same-holds :
      (P : Assertion) {w w' : W}
      → Same w w'
      → P (v.steps_of w) (v.preparations w)
      → P (v.steps_of w') (v.preparations w')
  Same-holds P {w} {w'} same p =
      subst (λ (n : ℕ). P (v.steps_of w') n) (sym same.left)
        (subst (λ (l : List Step). P l (v.preparations w)) (sym same.steps) p)

  -- An action that changes nothing of what a world holds.
  abbrev pub Quiet : {A : Type 0} → M W A → Type 1
  Quiet m = (P : Assertion) → Runs P m (λ _. P)

module _ {W A : Type 0} (v : View W) where
  pub Runs-any : (P : Assertion) (m : M W A) → Runs v P m (λ _. Any)
  Runs-any P m = record { at = λ s p. ends (m s) }
    where
      ends : (out : Result A × State W) → Ends v (λ _. Any) out
      ends (ok a, s) = tt
      ends (raised e, s) = tt

  pub Runs-pure :
      (P : Assertion) (Q : A → Assertion) (a : A)
      → ((steps : List Step) (left : ℕ) → P steps left → Q a steps left)
      → Runs v P (pure a) Q
  Runs-pure P Q a h = record { at = λ s p. h _ _ p }

  pub Runs-raise : (P : Assertion) (Q : A → Assertion) (e : Raise) → Runs v P (raise e) Q
  Runs-raise P Q e = record { at = λ s p. tt }

  pub Runs-weaken :
      (P P' : Assertion) (Q Q' : A → Assertion) (m : M W A)
      → Runs v P' m Q'
      → ((steps : List Step) (left : ℕ) → P steps left → P' steps left)
      → ((a : A) (steps : List Step) (left : ℕ) → Q' a steps left → Q a steps left)
      → Runs v P m Q
  Runs-weaken P P' Q Q' m hm before after = record {
    at = λ s p. ends (m s) (hm.at s (before _ _ p));
  }
    where
      ends : (out : Result A × State W) → Ends v Q' out → Ends v Q out
      ends (ok a, s) q = after a _ _ q
      ends (raised e, s) q = tt

  pub Runs-if :
      (P : Assertion) (Q : A → Assertion) (b : Bool) (m n : M W A)
      → (b ≡ true → Runs v P m Q)
      → (b ≡ false → Runs v P n Q)
      → Runs v P (if b then m else n) Q
  Runs-if P Q true m n km kn = km refl
  Runs-if P Q false m n km kn = kn refl

  -- The operations of a host, by what they do to the world where they answer.
  pub Runs-perform :
      (P : Assertion) (Q : A → Assertion) (c : Call) (op : W → Result A × W)
      → ((w : W) (a : A)
          → (op w).0 ≡ ok a
          → P (v.steps_of w) (v.preparations w)
          → Q a (v.steps_of (op w).1) (v.preparations (op w).1))
      → Runs v P (perform c op) Q
  unfolding perform
  Runs-perform P Q c op h = record { at = λ s p. ends s (op s.world).0 (λ a e. h s.world a e p) }
    where
      ends :
          (s : State W) (r : Result A)
          → ((a : A) → r ≡ ok a → Q a (v.steps_of (op s.world).1) (v.preparations (op s.world).1))
          → Ends v Q (r, record s { world = (op s.world).1; trace = c ∷ s.trace })
      ends s (ok a) h = h a refl
      ends s (raised e) h = tt

  pub Runs-ask :
      (P : Assertion) (Q : A → Assertion) (log : A → Call) (op : W → Result A × W)
      → ((w : W) (a : A)
          → (op w).0 ≡ ok a
          → P (v.steps_of w) (v.preparations w)
          → Q a (v.steps_of (op w).1) (v.preparations (op w).1))
      → Runs v P (ask log op) Q
  unfolding ask
  Runs-ask P Q log op h = record { at = λ s p. ends s (op s.world).0 (λ a e. h s.world a e p) }
    where
      ends :
          (s : State W) (r : Result A)
          → ((a : A) → r ≡ ok a → Q a (v.steps_of (op s.world).1) (v.preparations (op s.world).1))
          → Ends v Q (r, record s { world = (op s.world).1; trace = answered log r s.trace })
      ends s (ok a) h = h a refl
      ends s (raised e) h = tt

  -- What the assertion says of the world may be used to prove the rule.
  pub Runs-at :
      (P : Assertion) (Q : A → Assertion) (m : M W A)
      → ((steps : List Step) (left : ℕ)
          → P steps left
          → Runs v (λ now n. (now ≡ steps) × (n ≡ left)) m Q)
      → Runs v P m Q
  Runs-at P Q m h = record { at = λ s p. (h _ _ p).at s (refl, refl) }

  -- An assertion that holds of no world, or only under a fact.
  pub Runs-given :
      {F : Type 0} (P : Assertion) (Q : A → Assertion) (m : M W A)
      → (F → Runs v P m Q)
      → Runs v (λ now n. F × P now n) m Q
  Runs-given P Q m h = record { at = λ s p. (h p.0).at s p.1 }

  pub Quiet-perform :
      (c : Call) (op : W → Result A × W) → ((w : W) → Same v w (op w).1) → Quiet v (perform c op)
  Quiet-perform c op same P = Runs-perform P (λ _. P) c op (λ w a e p. Same-holds v P (same w) p)

  pub Quiet-ask :
      (log : A → Call) (op : W → Result A × W)
      → ((w : W) → Same v w (op w).1)
      → Quiet v (ask log op)
  Quiet-ask log op same P = Runs-ask P (λ _. P) log op (λ w a e p. Same-holds v P (same w) p)

  pub Quiet-same : (m : M W A) → ((s : State W) → Same v s.world (m s).1.world) → Quiet v m
  Quiet-same m same P = record { at = λ s p. ends (m s) (Same-holds v P (same s) p) }
    where
      ends :
          (out : Result A × State W)
          → P (v.steps_of out.1.world) (v.preparations out.1.world)
          → Ends v (λ _. P) out
      ends (ok a, s) p = p
      ends (raised e, s) p = tt

  pub Quiet-pure : (a : A) → Quiet v (pure a)
  Quiet-pure a P = Runs-pure P (λ _. P) a (λ steps left p. p)

module _ {W A B : Type 0} (v : View W) where
  pub Runs-bind :
      (P : Assertion) (R : A → Assertion) (Q : B → Assertion) (m : M W A) (f : A → M W B)
      → Runs v P m R
      → ((a : A) → Runs v (R a) (f a) Q)
      → Runs v P (m >>= f) Q
  unfolding ◌>>=◌
  Runs-bind P R Q m f hm hf = record { at = λ s p. after (m s) (hm.at s p) }
    where
      after :
          (out : Result A × State W)
          → Ends v R out
          → Ends v Q (elim out.0 [ ok a ↦ f a out.1 | raised e ↦ (raised e, out.1) ])
      after (ok a, s') q = (hf a).at s' q
      after (raised e, s') q = tt

  -- After a quiet action the assertion still stands.
  pub Runs-then :
      (P : Assertion) (Q : B → Assertion) (m : M W A) (f : A → M W B)
      → Quiet v m
      → ((a : A) → Runs v P (f a) Q)
      → Runs v P (m >>= f) Q
  Runs-then P Q m f quiet hf = Runs-bind P (λ _. P) Q m f (quiet P) hf

  pub Quiet-bind :
      (m : M W A) (f : A → M W B) → Quiet v m → ((a : A) → Quiet v (f a)) → Quiet v (m >>= f)
  Quiet-bind m f quiet hf P = Runs-then P (λ _. P) m f quiet (λ a. hf a P)

  -- What comes after an action of which nothing is known.
  pub Runs-after :
      (P : Assertion) (Q : B → Assertion) (m : M W A) (f : A → M W B)
      → ((a : A) → Runs v Any (f a) Q)
      → Runs v P (m >>= f) Q
  Runs-after P Q m f hf = Runs-bind P (λ _. Any) Q m f (Runs-any v P m) hf

module _ {W A : Type 0} (v : View W) where
  -- A call inside a `try` always returns, with what came back.
  pub Runs-attempt :
      (P : Assertion) (Q : Result A → Assertion) (log : Result A → Call) (op : W → Result A × W)
      → ((w : W)
          → P (v.steps_of w) (v.preparations w)
          → Q (op w).0 (v.steps_of (op w).1) (v.preparations (op w).1))
      → Runs v P (attempt log op) Q
  unfolding attempt
  Runs-attempt P Q log op h = record { at = λ s p. h s.world p }
