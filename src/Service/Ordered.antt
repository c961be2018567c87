-- ===== src/Service/Ordered.antt =====
-- slimx_agent/engine.py and service.py, `_bridge`: what an observer of a stream sees of the drive.
use slimx_agent.Prelude.{ℕ, ◌≡◌, sym, subst, Option, List, [], ◌∷◌, ◌++◌}
use slimx_agent.Json.{ℤ}
use slimx_agent.Store.{Run, Event}
use slimx_agent.Outcomes.{ok}
use slimx_agent.Tools.{ToolRegistry}
use slimx_agent.Engine.Host.{Host, Handler, RunEndHook, Call, yielded}
use slimx_agent.Engine.Drive.{sub_one}
use slimx_agent.Engine.Safety.{log}
use slimx_agent.Engine.Stream.Order.{◌<ℤ◌, AllBelow, Descends, yields, Climbing, log-Descends}
use slimx_agent.Service.Stream.{events_onto}
use slimx_agent.Service.Bridge.{Bridge, Reached}
use slimx_agent.Service.Observed.{Reached-IsFaithful}

-- Every event of a list comes after a sequence number.
abbrev pub AllAfter : ℤ → List Event → Type 0
AllAfter k [] = Unit
AllAfter k (e ∷ events) = (k <ℤ e.sequence) × AllAfter k events

-- Each event comes before all that follow it.
abbrev pub Ascending : List Event → Type 0
Ascending [] = Unit
Ascending (e ∷ events) = AllAfter e.sequence events × Ascending events

-- All the numbers come before all the events.
abbrev Under : List Event → List ℤ → Type 0
Under events [] = Unit
Under events (k ∷ ks) = AllAfter k events × Under events ks

Under-cons :
    (e : Event) (events : List Event) (ks : List ℤ)
    → AllBelow e.sequence ks
    → Under events ks
    → Under (e ∷ events) ks
Under-cons e events [] below under = tt
Under-cons e events (k ∷ ks) below under =
    ((below.0, under.0), Under-cons e events ks below.1 under.1)

events_onto-Ascending :
    (floor : ℤ) (t : List Call) (events : List Event)
    → Descends floor (yields t)
    → Under events (yields t)
    → Ascending events
    → Ascending (events_onto t events)
events_onto-Ascending floor [] events d u a = a
events_onto-Ascending floor (yielded e ∷ t) events d u a =
    events_onto-Ascending floor t (e ∷ events) d.2 (Under-cons e events (yields t) d.1 u.1) (u.0, a)
events_onto-Ascending floor (c ∷ t) events d u a = events_onto-Ascending floor t events d u a

Under-none : (ks : List ℤ) → Under [] ks
Under-none [] = tt
Under-none (k ∷ ks) = (tt, Under-none ks)

AllAfter-prefix : (k : ℤ) (xs ys : List Event) → AllAfter k (xs ++ ys) → AllAfter k xs
AllAfter-prefix k [] ys h = tt
AllAfter-prefix k (e ∷ xs) ys h = (h.0, AllAfter-prefix k xs ys h.1)

Ascending-prefix : (xs ys : List Event) → Ascending (xs ++ ys) → Ascending xs
Ascending-prefix [] ys h = tt
Ascending-prefix (e ∷ xs) ys h = (AllAfter-prefix e.sequence xs ys h.0, Ascending-prefix xs ys h.1)

module _ (h : Host) (registry : ToolRegistry (Handler h.World)) (hook : Option (RunEndHook h.World))
    (run : Run) (fuel : ℕ) (w : h.World) (law : Climbing h run) where
  -- Over a store that answers with the events past the cursor in their order: whatever the observer
  -- of a drive's stream does and when, what it has been given is in the order of the sequence
  -- numbers, with none twice.
  pub delivered-Ascending :
      (first : ℤ) (s : Bridge Event)
      → (h.next_sequence run.id w).0 ≡ ok first
      → Reached (events_onto (log h registry hook run fuel w) []) s
      → Ascending s.delivered
  delivered-Ascending first s next reached =
      let t = log h registry hook run fuel w in
      let faithful = Reached-IsFaithful (events_onto t []) s reached in
      let items =
        events_onto-Ascending (sub_one first) t []
          (log-Descends h registry hook run fuel w law first next) (Under-none (yields t)) tt in
      let driven =
        Ascending-prefix s.driven s.rest (subst Ascending (sym faithful.drives_all) items) in
      Ascending-prefix s.delivered s.queue (
        Ascending-prefix (s.delivered ++ s.queue) faithful.lost
          (subst Ascending (sym faithful.observed) driven))
