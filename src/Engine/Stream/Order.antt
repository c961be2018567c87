-- ===== src/Engine/Stream/Order.antt =====
-- slimx_agent/engine.py, `drain`: no event is yielded twice, and none out of its order.
use slimx_agent.Prelude.{
  ℕ, zero, suc, sym, subst, ◌+◌, ◌≤◌, ◌<◌, Option, List, [], ◌∷◌, ◌++◌, ◌≡◌, refl, if◌then◌else◌,
  contains, arith,
}
use slimx_agent.Json.{ℤ, pos, negsuc}
use slimx_agent.Store.{Run, Event}
use slimx_agent.Outcomes.{Result, ok, raised}
use slimx_agent.Tools.{ToolRegistry}
use slimx_agent.Engine.Host.{Host, Handler, RunEndHook, Call, yielded}
use slimx_agent.Engine.Monad.{State, pure, ◌>>=◌, drained_events, next_sequence}
use slimx_agent.Engine.Gates.{terminal_run_statuses}
use slimx_agent.Engine.Drive.{yield_all, drain, drive, finished, execute_run_events, sub_one}
use slimx_agent.Engine.Safety.{log}
use slimx_agent.Engine.Stream.Keeps.{Invariant, IsQuiet, Keeps, Keeps-if, Keeps-pure}
use slimx_agent.Engine.Stream.Drives.{drive-Keeps}

abbrev pos_part : ℤ → ℕ
pos_part (pos n) = n
pos_part (negsuc n) = 0

abbrev neg_part : ℤ → ℕ
neg_part (pos n) = 0
neg_part (negsuc n) = suc n

infix 50 ◌<ℤ◌ ◌≤ℤ◌
abbrev pub ◌<ℤ◌ : ℤ → ℤ → Type 0
a <ℤ b = pos_part a + neg_part b < pos_part b + neg_part a

abbrev pub ◌≤ℤ◌ : ℤ → ℤ → Type 0
a ≤ℤ b = pos_part a + neg_part b ≤ pos_part b + neg_part a

-- Every number of a list is below a bound, or at most that.
abbrev pub AllBelow : ℤ → List ℤ → Type 0
AllBelow b [] = Unit
AllBelow b (x ∷ xs) = (x <ℤ b) × AllBelow b xs

abbrev AllUpTo : ℤ → List ℤ → Type 0
AllUpTo b [] = Unit
AllUpTo b (x ∷ xs) = (x ≤ℤ b) × AllUpTo b xs

-- Each number is above those behind it, and above the floor.
abbrev pub Descends : ℤ → List ℤ → Type 0
Descends floor [] = Unit
Descends floor (x ∷ xs) = (floor <ℤ x) × AllBelow x xs × Descends floor xs

-- Events that come after a sequence number, in the order of theirs.
abbrev pub Climbs : ℤ → List Event → Type 0
Climbs after [] = Unit
Climbs after (e ∷ events) = (after <ℤ e.sequence) × Climbs e.sequence events

-- The sequence numbers of the events that were yielded, newest first.
abbrev pub yields : List Call → List ℤ
yields [] = []
yields (yielded e ∷ t) = e.sequence ∷ yields t
yields (_ ∷ t) = yields t

-- A store that answers with the events after the cursor, in their order.
pub record Climbing (h : Host) (run : Run) : Type 0 where
  pub climbs :
      (after : ℤ) (w : h.World) (events : List Event)
      → (h.drained_events run.id after w).0 ≡ ok events
      → Climbs after events

-- What was yielded descends to the floor, and the cursor is above it all.
record InOrder (floor : ℤ) (t : List Call) (cursor : ℤ) : Type 0 where
  descends : Descends floor (yields t)
  up_to : AllUpTo cursor (yields t)
  from : floor ≤ℤ cursor

yields-quiet : (c : Call) (t : List Call) → IsQuiet c → yields (c ∷ t) ≡ yields t
yields-quiet (yielded e) t q = absurd q
yields-quiet c t q = refl

in_order : ℤ → Invariant
in_order floor = record {
  holds = InOrder floor;
  quiet = λ c t k q p. record {
    descends = rw (yields-quiet c t q) p.descends;
    up_to = rw (yields-quiet c t q) p.up_to;
    from = p.from;
  };
}

AllUpTo-below : (k x : ℤ) (xs : List ℤ) → k <ℤ x → AllUpTo k xs → AllBelow x xs
AllUpTo-below k x [] lt h = tt
AllUpTo-below k x (y ∷ ys) lt h = (omega (arith, h.0), AllUpTo-below k x ys lt h.1)

AllUpTo-raise : (k x : ℤ) (xs : List ℤ) → k <ℤ x → AllUpTo k xs → AllUpTo x xs
AllUpTo-raise k x [] lt h = tt
AllUpTo-raise k x (y ∷ ys) lt h = (omega (arith, h.0), AllUpTo-raise k x ys lt h.1)

InOrder-yield :
    (floor k : ℤ) (e : Event) (t : List Call)
    → k <ℤ e.sequence
    → InOrder floor t k
    → InOrder floor (yielded e ∷ t) e.sequence
InOrder-yield floor k e t lt p = record {
  descends = (omega (arith, p.from), AllUpTo-below k e.sequence (yields t) lt p.up_to, p.descends);
  up_to = (omega arith, AllUpTo-raise k e.sequence (yields t) lt p.up_to);
  from = omega (arith, p.from);
}

module _ (h : Host) (floor : ℤ) where
  yield_all-InOrder :
      (events : List Event) (s : State h.World)
      → Climbs s.cursor events
      → InOrder floor s.trace s.cursor
      → InOrder floor (yield_all h events s).1.trace (yield_all h events s).1.cursor
  unfolding yield_all
  yield_all-InOrder [] s c p = p
  yield_all-InOrder (e ∷ events) s c p =
      yield_all-InOrder events (record s { trace = yielded e ∷ s.trace; cursor = e.sequence }) c.1
        (InOrder-yield floor s.cursor e s.trace c.0 p)

  -- The draining, by what the store answered.
  abbrev drained : State h.World → Result (List Event) → Result (Unit {0}) × State h.World
  drained s (ok events) = yield_all h events s
  drained s (raised e) = (raised e, s)

  drained-InOrder :
      (s : State h.World) (r : Result (List Event))
      → ((events : List Event) → r ≡ ok events → Climbs s.cursor events)
      → InOrder floor s.trace s.cursor
      → InOrder floor (drained s r).1.trace (drained s r).1.cursor
  drained-InOrder s (ok events) c p = yield_all-InOrder events s (c events refl) p
  drained-InOrder s (raised e) c p = p

  drain_lem :
      (run : Run) (s : State h.World)
      → let (answer, w) = h.drained_events run.id s.cursor s.world in
        drain h run s ≡ drained (record s { world = w }) answer
  unfolding drain drained_events ◌>>=◌
  drain_lem run s =
      let (answer, w) = h.drained_events run.id s.cursor s.world in
      by_answer (record s { world = w }) answer
    where
      by_answer :
          (s' : State h.World) (r : Result (List Event))
          → elim r as (λ r. Result (Unit {0}) × State h.World) [
            | ok events ↦ yield_all h events s'
            | raised e ↦ (raised e, s')
          ]
            ≡ drained s' r
      by_answer s' (ok events) = refl
      by_answer s' (raised e) = refl

  drain-Keeps : (run : Run) → Climbing h run → Keeps (in_order floor) (drain h run)
  unfolding in_order
  drain-Keeps run law = record {
    at = λ s p.
        subst (λ out. InOrder floor out.1.trace out.1.cursor) (sym (drain_lem run s))
          (drained-InOrder _ _ (λ events e. law.climbs s.cursor s.world events e) p);
  }

sub_one-floor : (first x : ℤ) → sub_one first <ℤ x → first ≤ℤ x
sub_one-floor (pos zero) x lt = omega (arith, lt)
sub_one-floor (pos (suc n)) x lt = omega (arith, lt)
sub_one-floor (negsuc n) x lt = omega (arith, lt)

Descends-at :
    (floor : ℤ) (event : Event) (after before : List Call)
    → Descends floor (yields (after ++ yielded event ∷ before))
    → (floor <ℤ event.sequence) × AllBelow event.sequence (yields before)
Descends-at floor event [] before d = (d.0, d.1)
Descends-at floor event (yielded e ∷ after) before d = Descends-at floor event after before d.2
Descends-at floor event (c ∷ after) before d = Descends-at floor event after before d

module _ (h : Host) (registry : ToolRegistry (Handler h.World)) (hook : Option (RunEndHook h.World))
    (run : Run) (fuel : ℕ) (w : h.World) (law : Climbing h run) where
  pub log-Descends :
      (first : ℤ)
      → (h.next_sequence run.id w).0 ≡ ok first
      → Descends (sub_one first) (yields (log h registry hook run fuel w))
  unfolding execute_run_events next_sequence in_order ◌>>=◌
  log-Descends first e = rw (e, log) (whole.at _ began).descends
    where
      whole : Keeps (in_order (sub_one first)) (
          if contains terminal_run_statuses run.status
          then pure finished
          else drive h registry hook run fuel)
      whole =
          Keeps-if (in_order (sub_one first)) (contains terminal_run_statuses run.status)
            (pure finished) (drive h registry hook run fuel)
            (Keeps-pure (in_order (sub_one first)) finished)
            (drive-Keeps (in_order (sub_one first)) h registry hook run
              (drain-Keeps h (sub_one first) run law) fuel)

      began : InOrder (sub_one first) [] (sub_one first)
      began = record { descends = tt; up_to = tt; from = omega arith }

  -- Over a store that answers with the events past the cursor in their order: an event that a drive
  -- yields has at least the sequence number that was next when the drive began, and comes after every
  -- event that was yielded before it.
  pub yielded-InOrder :
      (first : ℤ) (event : Event) (after before : List Call)
      → (h.next_sequence run.id w).0 ≡ ok first
      → log h registry hook run fuel w ≡ after ++ yielded event ∷ before
      → (first ≤ℤ event.sequence) × AllBelow event.sequence (yields before)
  yielded-InOrder first event after before next eq =
      let (above, below) =
        Descends-at (sub_one first) event after before
          (subst (λ t. Descends (sub_one first) (yields t)) eq (log-Descends first next)) in
      (sub_one-floor first event.sequence above, below)
