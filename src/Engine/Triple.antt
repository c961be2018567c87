-- ===== src/Engine/Triple.antt =====
-- slimx_agent/engine.py: what an action of a drive guarantees of the log: by its result if it
-- returns, and if it raises.
use slimx_agent.Prelude.{Bool, true, false, ◌≡◌, refl, List, ◌∷◌, if◌then◌else◌}
use slimx_agent.Outcomes.{Raise, Result, ok, raised}
use slimx_agent.Engine.Host.{Call}
use slimx_agent.Engine.Monad.{State, M, pure, raise, ◌>>=◌, perform, answered, ask, attempt}

abbrev pub Assertion : Type 1
Assertion = List Call → Type 0

module _ {W A : Type 0} where
  abbrev pub Post : (A → Assertion) → Assertion → Result A × State W → Type 0
  Post Q E (ok a, s) = Q a s.trace
  Post Q E (raised e, s) = E s.trace

  pub record Triple (P : Assertion) (m : M W A) (Q : A → Assertion) (E : Assertion) : Type 0 where
    pub at : (s : State W) → P s.trace → Post Q E (m s)

  -- An action that keeps one assertion while it returns.
  abbrev pub Keeps : Assertion → Assertion → M W A → Type 0
  Keeps P E m = Triple P m (λ _. P) E

module _ {W A : Type 0} {P : Assertion} {Q : A → Assertion} {E : Assertion} where
  pub Triple-pure : (a : A) → ((t : List Call) → P t → Q a t) → Triple {W = W} P (pure a) Q E
  Triple-pure a h = record { at = λ s p. h s.trace p }

  pub Triple-raise : (e : Raise) → ((t : List Call) → P t → E t) → Triple {W = W} P (raise e) Q E
  Triple-raise e h = record { at = λ s p. h s.trace p }

  pub Triple-perform :
      (c : Call) (op : W → Result A × W)
      → ((a : A) (t : List Call) → P t → Q a (c ∷ t))
      → ((t : List Call) → P t → E (c ∷ t))
      → Triple P (perform c op) Q E
  unfolding perform
  Triple-perform c op returns fails = record {
    at = λ s p.
        let (r, w) = op s.world in
        elim r as (λ r. Post Q E (r, record s { world = w; trace = c ∷ s.trace })) [
          | ok a ↦ returns a s.trace p
          | raised e ↦ fails s.trace p
        ];
  }

  pub Triple-ask :
      (log : A → Call) (op : W → Result A × W)
      → ((a : A) (t : List Call) → P t → Q a (log a ∷ t))
      → ((t : List Call) → P t → E t)
      → Triple P (ask log op) Q E
  unfolding ask
  Triple-ask log op returns fails = record {
    at = λ s p.
        let (r, w) = op s.world in
        elim r as (λ r. Post Q E (r, record s { world = w; trace = answered log r s.trace })) [
          | ok a ↦ returns a s.trace p
          | raised e ↦ fails s.trace p
        ];
  }

module _ {W A B : Type 0} {P : Assertion} {Q : B → Assertion} {E : Assertion} where
  pub Triple-bind :
      (R : A → Assertion) {m : M W A} {f : A → M W B}
      → Triple P m R E
      → ((a : A) → Triple (R a) (f a) Q E)
      → Triple P (m >>= f) Q E
  unfolding ◌>>=◌
  Triple-bind R {m} {f} hm hf = record { at = λ s p. after (m s) (hm.at s p) }
    where
      after :
          (out : Result A × State W)
          → Post {W = W} R E out
          → Post {W = W} Q E (elim out.0 [ ok a ↦ f a out.1 | raised e ↦ (raised e, out.1) ])
      after (ok a, s') q = (hf a).at s' q
      after (raised e, s') q = q

module _ {W A : Type 0} {P : Assertion} {Q : Result A → Assertion} {E : Assertion} where
  -- A call inside a `try` never raises; what comes back is the operation's result in some world.
  pub Triple-attempt :
      (log : Result A → Call) (op : W → Result A × W)
      → ((w : W) (t : List Call) → P t → Q (op w).0 (log (op w).0 ∷ t))
      → Triple P (attempt log op) Q E
  unfolding attempt
  Triple-attempt log op returns = record { at = λ s p. returns s.world s.trace p }

module _ {W A : Type 0} {P : Assertion} {Q : A → Assertion} {E : Assertion} where
  pub Triple-if :
      (b : Bool) {m n : M W A}
      → (b ≡ true → Triple P m Q E)
      → (b ≡ false → Triple P n Q E)
      → Triple P (if b then m else n) Q E
  Triple-if true km kn = km refl
  Triple-if false km kn = kn refl

  -- A weaker precondition is enough, and a stronger postcondition is left.
  pub Triple-weaken :
      (P' : Assertion) (Q' : A → Assertion) {m : M W A}
      → Triple P' m Q' E
      → ((t : List Call) → P t → P' t)
      → ((a : A) (t : List Call) → Q' a t → Q a t)
      → Triple P m Q E
  Triple-weaken P' Q' {m} hm before after = record {
    at = λ s p. result (m s) (hm.at s (before s.trace p));
  }
    where
      result : (out : Result A × State W) → Post {W = W} Q' E out → Post {W = W} Q E out
      result (ok a, s') q = after a s'.trace q
      result (raised e, s') q = q

module _ {W A B : Type 0} {P : Assertion} {E : Assertion} where
  pub Keeps-bind :
      (m : M W A) (f : A → M W B) → Keeps P E m → ((a : A) → Keeps P E (f a)) → Keeps P E (m >>= f)
  Keeps-bind m f km kf = Triple-bind (λ _. P) km kf

module _ {W A : Type 0} {P : Assertion} {E : Assertion} where
  pub Keeps-pure : (a : A) → Keeps {W = W} P E (pure a)
  Keeps-pure a = Triple-pure a (λ t p. p)

  pub Keeps-if :
      (b : Bool) (m n : M W A) → Keeps P E m → Keeps P E n → Keeps P E (if b then m else n)
  Keeps-if b m n km kn = Triple-if b (λ _. km) (λ _. kn)

pub ruleset keeps_rules = (Keeps-pure, Keeps-if, Keeps-bind)
