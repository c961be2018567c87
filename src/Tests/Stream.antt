-- ===== src/Tests/Stream.antt =====
-- A store that answers with the events past the cursor, in their order.
use slimx_agent.Prelude.{
  subst, true, contains, find_first, zero, suc, ◌≡◌, refl, none, some, List, [], ◌∷◌, ◌++◌, arith,
}
use slimx_agent.Json.{ℤ, pos, negsuc}
use slimx_agent.Store.{Event}
use slimx_agent.Outcomes.{ok, ok_inj}
use slimx_agent.Engine.Host.{Host, Call, yielded, got_run, got_steps, status_set, event_appended}
use slimx_agent.Engine.Monad.{
  drained_events, next_sequence, now, append_event, set_run_status, get_steps, get_run, ◌>>=◌,
}
use slimx_agent.Engine.Step.{call_hook}
use slimx_agent.Engine.Gates.{halted, next_step}
use slimx_agent.Engine.Drive.{
  yield_all, drain, next_pass, completion, one_pass, passes, drive, execute_run_events,
}
use slimx_agent.Engine.Safety.{log}
use slimx_agent.Engine.Stream.Order.{Climbing, Climbs, AllBelow, yields, yielded-InOrder, ◌≤ℤ◌}
use slimx_agent.Service.Stream.{events_onto}
use slimx_agent.Service.Bridge.{
  Bridge, opened, publish, deliver, Reached, begun, after, yields as yields_item, delivers,
}
use slimx_agent.Service.Ordered.{Ascending, delivered-Ascending}
use slimx_agent.Tests.Memory.{memory}
use slimx_agent.Tests.Drives.{auto_run, idle, driven_run}

abbrev first_event : Event
first_event = record { sequence = pos 1; type = "agent.noted"; agent_step_id = "None" }

abbrev second_event : Event
second_event = record { sequence = pos 2; type = "agent.noted"; agent_step_id = "None" }

abbrev past : ℤ → List Event
past (negsuc n) = first_event ∷ second_event ∷ []
past (pos zero) = first_event ∷ second_event ∷ []
past (pos (suc zero)) = second_event ∷ []
past (pos (suc (suc n))) = []

abbrev feed : Host
feed = record memory { drained_events = λ id after m. (ok (past after), m) }

past-Climbs : (after : ℤ) → Climbs after (past after)
past-Climbs (negsuc n) = (omega arith, (omega arith, tt))
past-Climbs (pos zero) = (omega arith, (omega arith, tt))
past-Climbs (pos (suc zero)) = (omega arith, tt)
past-Climbs (pos (suc (suc n))) = tt

abbrev feed-Climbing : Climbing feed auto_run
feed-Climbing = record {
  climbs = λ after m events e. subst (Climbs after) (ok_inj e) (past-Climbs after);
}

unfoldable feed_log : List Call
unfolding execute_run_events drive passes one_pass completion next_pass drain get_run get_steps
    set_run_status append_event now next_sequence drained_events ◌>>=◌ next_step halted contains
    find_first yield_all call_hook
feed_log = log feed [] none auto_run 2 idle

abbrev later : List Call
later =
    event_appended "r1" "agent.run.completed" none none true
    ∷ status_set auto_run "completed"
    ∷ got_run (some driven_run)
    ∷ got_steps []
    ∷ got_run (some driven_run)
    ∷ []

abbrev earlier : List Call
earlier = yielded first_event ∷ status_set auto_run "running" ∷ []

feed_log_lem : feed_log ≡ later ++ yielded second_event ∷ earlier
unfolding feed_log
feed_log_lem = refl

yielded-InOrder_example : (pos 1 ≤ℤ pos 2) × AllBelow (pos 2) (yields earlier)
unfolding feed_log
yielded-InOrder_example =
    yielded-InOrder feed [] none auto_run 2 idle feed-Climbing (pos 1) second_event later earlier
      refl feed_log_lem

-- The bridge of the feed's drive, after its first event has been yielded and delivered.
abbrev first_yielded : Bridge Event
first_yielded = publish first_event (second_event ∷ []) (opened (first_event ∷ second_event ∷ []))

abbrev first_delivered : Bridge Event
first_delivered = deliver first_event [] first_yielded

first_delivered-Reached : Reached (events_onto feed_log []) first_delivered
unfolding feed_log publish deliver
first_delivered-Reached =
    after first_yielded first_delivered
      (after (opened (first_event ∷ second_event ∷ [])) first_yielded (begun _ refl)
        (yields_item first_event (second_event ∷ []) refl refl))
      (delivers first_event [] refl refl refl)

delivered-Ascending_example : Ascending first_delivered.delivered
unfolding feed_log
delivered-Ascending_example =
    delivered-Ascending feed [] none auto_run 2 idle feed-Climbing (pos 1) first_delivered refl
      first_delivered-Reached
