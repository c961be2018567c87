-- ===== src/Tests/Memory.antt =====
-- A host in memory, for the tests: it stores one run, its steps and its events, and nothing else
-- happens in its world.
use slimx_agent.Prelude.{
  ℕ, ◌+◌, String, ◌==◌, Bool, true, Option, none, some, List, [], ◌∷◌, ◌++◌, if◌then◌else◌, ltb,
}
use slimx_agent.Json.{ℤ, pos, negsuc}
use slimx_agent.Store.{Run, Step, Event}
use slimx_agent.Outcomes.{Result, ok, raised, other}
use slimx_agent.Engine.Host.{Host}

pub record Memory : Type 0 where
  pub run : Run
  pub steps : List Step
  pub events : List Event
  pub last : ℕ
  pub clock : ℕ

abbrev pub set_status : String → String → List Step → List Step
set_status id status [] = []
set_status id status (s ∷ steps) =
    let rest = set_status id status steps in
    if s.id == id then record s { status = status } ∷ rest else s ∷ rest

abbrev pub find_step : String → List Step → Option Step
find_step id [] = none
find_step id (s ∷ steps) = if s.id == id then some s else find_step id steps

abbrev pub found_step : Option Step → Result Step
found_step none = raised (other "LookupError" "no such step")
found_step (some s) = ok s

abbrev write_step : String → String → Memory → Result Step × Memory
write_step id status m =
    let steps = set_status id status m.steps in
    (found_step (find_step id steps), record m { steps = steps })

abbrev is_after : ℤ → ℕ → Bool
is_after (pos n) k = ltb n k
is_after (negsuc n) k = true

abbrev events_after : ℤ → List Event → List Event
events_after n [] = []
events_after n (e ∷ events) =
    let rest = events_after n events in
    elim e.sequence [ pos k ↦ if is_after n k then e ∷ rest else rest | negsuc k ↦ rest ]

abbrev id_text : Option String → String
id_text none = "None"
id_text (some id) = id

abbrev pub memory : Host
memory = record {
  World = Memory;
  get_run = λ id m. (ok (some m.run), m);
  get_steps = λ id m. (ok m.steps, m);
  get_step = λ id m. (ok (find_step id m.steps), m);
  set_run_status =
      λ run status m. let r = record m.run { status = status } in (ok r, record m { run = r });
  set_step_state = λ id status error refs m. write_step id status m;
  rollback = λ m. (ok tt, m);
  append_event = λ run_id type step_id payload commit m. (
    ok tt,
    record m {
      last = m.last + 1;
      events =
          m.events
          ++ record { sequence = pos (m.last + 1); type = type; agent_step_id = id_text step_id }
            ∷ [];
    },
  );
  next_sequence = λ id m. (ok (pos (m.last + 1)), m);
  drained_events = λ id n m. (ok (events_after n m.events), m);
  now = λ m. (m.clock, m);
}
