-- ===== src/Engine/Progress/Assertions.antt =====
-- slimx_agent/engine.py: the assertions on the stored steps in the course of a visit.
use slimx_agent.Prelude.{ℕ, ◌+◌, ◌≤◌, ◌<◌, ◌≡◌, ◌⊎◌, String, Option, List}
use slimx_agent.Store.{Step, Payload}
use slimx_agent.Outcomes.{Result, raised, step_action_prepared}
use slimx_agent.Engine.Drive.{Turn, again, stop, Flow, turn, leave}
use slimx_agent.Engine.Progress.Updates.{Alike, opened, ids}
use slimx_agent.Engine.Progress.Rules.{Assertion, Any}

abbrev pub Failed : Step → Assertion
Failed ran now n = ran.status ≡ "failed"

module _ (steps : List Step) (left : ℕ) where
  -- At most the status of one step has changed.
  abbrev pub Near : Step → Assertion
  Near step now n = Alike step.id now steps × (n ≤ left)

  -- Fewer steps are open, or fewer preparations are left.
  abbrev pub Less : Assertion
  Less now n = (opened now + n < opened steps + left) × (ids now ≡ ids steps)

  -- What is known of the step that ran.
  abbrev pub Ran : Step → Assertion
  Ran ran now n = (ran.status ≡ "failed") ⊎ Less now n

  -- What an invocation leaves behind.
  abbrev pub Came : Step → Result (Option Payload) → Assertion
  Came step answer now n =
      Near step now n × ((text : String) → answer ≡ raised (step_action_prepared text) → n < left)

  -- How a visit and a pass leave the world: where the loop goes on, it is nearer to its end.
  abbrev pub Nearer : Turn → Assertion
  Nearer again = Less
  Nearer stop = Any

  abbrev pub Passing : Flow → Assertion
  Passing (turn t) = Nearer t
  Passing leave = Any
