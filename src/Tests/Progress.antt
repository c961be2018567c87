-- ===== src/Tests/Progress.antt =====
-- The host in memory is lawful, and so a drive on it ends.
use slimx_agent.Prelude.{
  ◌+◌, ◌<◌, String, ◌==◌, ◌≡◌, refl, ◌≢◌, none, some, List, [], ◌∷◌, arith, ap, sym, subst,
  Bool-cases, inl, inr, lookup, contains, count_if,
}
use slimx_agent.Store.{Step}
use slimx_agent.Outcomes.{ok, ok_inj}
use slimx_agent.Tools.{resolve}
use slimx_agent.Policies.Normalize.{Distinct}
use slimx_agent.Engine.Host.{Handler}
use slimx_agent.Engine.Drive.{execute_run_events, exhausted}
use slimx_agent.Engine.Safety.{start}
use slimx_agent.Engine.Progress.Updates.{update, mark, ids, opened}
use slimx_agent.Engine.Progress.Rules.{View, Same}
use slimx_agent.Engine.Progress.Lawful.{Lawful, HandlesWell}
use slimx_agent.Engine.Progress.Finish.{execute_run_events-ends}
use slimx_agent.Tests.Memory.{Memory, memory, find_step, found_step, set_status}
use slimx_agent.Tests.Drives.{auto_run, world, handlers, returns}

abbrev stored : View Memory
stored = record { steps_of = λ m. m.steps; preparations = λ m. 0 }

set_status-update :
    (id status : String) (steps : List Step) → set_status id status steps ≡ update id status steps
unfolding update mark
set_status-update id status [] = refl
set_status-update id status (s ∷ steps) = elim (Bool-cases (s.id == id)) [
  | inl here ↦ rw (here, set_status-update id status steps) refl
  | inr other ↦ rw (other, set_status-update id status steps) refl
]

found_status :
    (id status : String) (steps : List Step) (answer : Step)
    → found_step (find_step id (set_status id status steps)) ≡ ok answer
    → answer.status ≡ status
found_status id status [] answer e = cc
found_status id status (s ∷ steps) answer e = elim (Bool-cases (s.id == id)) [
  | inl here ↦ ap (λ (t : Step). t.status) (sym (ok_inj (rw here at (rw here at e))))
  | inr other ↦ found_status id status steps answer (rw other at (rw other at e))
]

same : (m : Memory) → Same stored m m
same m = record { steps = refl; left = refl }

returns-HandlesWell : HandlesWell stored returns auto_run
returns-HandlesWell = record {
  alike = λ step m status. refl;
  left_le = λ step m. omega arith;
  prepares = λ step m text e. cc;
}

handlers-HandlesWell :
    (type : String) (handler : Handler Memory)
    → resolve type handlers ≡ some handler
    → HandlesWell stored handler auto_run
unfolding resolve lookup
handlers-HandlesWell type handler e = elim (Bool-cases ("web_search" == type)) [
  | inl search_type ↦
      subst (λ f. HandlesWell stored f auto_run) (some_inj (rw search_type at e))
        returns-HandlesWell
  | inr other ↦ elim (Bool-cases ("model_call" == type)) [
    | inl model_type ↦
        subst (λ f. HandlesWell stored f auto_run) (some_inj (rw model_type at (rw other at e)))
          returns-HandlesWell
    | inr neither ↦ absurd (none_found (rw neither at (rw other at e)))
  ]
]
  where
    some_inj : {f g : Handler Memory} → some f ≡ some g → f ≡ g
    some_inj p = cc

    none_found : {f : Handler Memory} → none ≡ some f → ⊥
    none_found p = cc

abbrev memory_law : Lawful memory handlers auto_run
memory_law = record {
  view = stored;
  get_run = same;
  get_steps = same;
  steps_read = λ m steps e. sym (ok_inj e);
  get_step = λ id. same;
  set_run_status = λ status m. record { steps = refl; left = refl };
  set_step_state = λ id status error refs m answer e. record {
    stored = set_status-update id status m.steps;
    left = refl;
    answered = found_status id status m.steps answer e;
  };
  append_event = λ type step_id payload commit m. record { steps = refl; left = refl };
  next_sequence = same;
  drained_events = λ after. same;
  now = same;
  handlers = handlers-HandlesWell;
}

apart_ids : Distinct (ids world.steps)
unfolding contains
apart_ids = (refl, (refl, tt))

two_open : opened world.steps + 0 < 3
unfolding count_if contains
two_open = omega arith

execute_run_events-ends_example :
    (execute_run_events memory handlers none auto_run 3 (start memory world)).0 ≢ ok exhausted
execute_run_events-ends_example =
    execute_run_events-ends memory handlers auto_run memory_law none 3 world apart_ids two_open
