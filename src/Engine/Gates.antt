-- ===== src/Engine/Gates.antt =====
-- slimx_agent/engine.py: what the loop decides from a run and its steps, without a host.
use slimx_agent.Prelude.{
  ℕ, String, ◌<>◌, ◌==◌, Bool, true, false, ◌&&◌, ◌||◌, not, Option, none, some, List, [], ◌∷◌,
  if◌then◌else◌, leb, show, contains, count_if, find_first, ◌*◌, ◌/◌,
}
use slimx_agent.Json.{Json, pos, bool, int, str, arr, positive_int, of_strings}
use slimx_agent.Contracts.{run_failed}
use slimx_agent.Store.{Run, Step, Payload, Event}
use slimx_agent.Policies.{
  Tier, auto_safe, review_recommended, hard_gated, classify_step, requires_stop,
  normalize_preapproved,
}

abbrev pub terminal_run_statuses : List String
terminal_run_statuses = "completed" ∷ "failed" ∷ "cancelled" ∷ []

-- `current is not None and current.status in ("paused", "cancelled")`
unfoldable pub halted : Option Run → Bool
halted none = false
halted (some run) = contains ("paused" ∷ "cancelled" ∷ []) run.status

-- `current or run`
abbrev pub fresh : Option Run → Run → Run
fresh none run = run
fresh (some current) run = current

-- The loop takes the first step that is not yet completed or skipped.
abbrev pub is_open : Step → Bool
is_open step = not (contains ("completed" ∷ "skipped" ∷ []) step.status)

unfoldable pub next_step : List Step → Option Step
next_step steps = find_first is_open steps

abbrev is_executed : Step → Bool
is_executed step = contains ("completed" ∷ "failed" ∷ []) step.status

-- `str(value)` of an integer; Python prints its `True` by name.
int_text : Json → String
int_text (bool true) = "True"
int_text (int (pos n)) = show n
int_text _ = ""

-- The steps part of `_budget_exhausted_reason`.
unfoldable pub steps_budget_reason : Run → List Step → Option String
unfolding int_text
steps_budget_reason run steps = elim (positive_int run.budget_max_steps) [
  | none ↦ none
  | some max_steps ↦
      let executed = count_if is_executed steps in
      if leb max_steps executed
      then some (
          "step budget reached ("
          <> (show executed <> ("/" <> (int_text run.budget_max_steps <> " steps executed)"))))
      else none
]

abbrev second : ℕ
second = 1000000000

-- The wall-clock part, at `elapsed` nanoseconds of this drive.
unfoldable pub wall_budget_reason : Run → ℕ → ℕ → Option String
unfolding int_text
wall_budget_reason run max_wall elapsed =
    if leb (max_wall * second) elapsed
    then some (
        "time budget reached ("
        <> (show (elapsed / second)
            <> ("s of " <> (int_text run.budget_max_wall_seconds <> "s for this execution)"))))
    else none

-- `resolve_gate`: the classification, the reason, and whether execution stops.
unfoldable pub resolve_gate : Step → Option String → Bool → Json → Option Tier × String × Bool
resolve_gate step none auto_approve preapproved_tools =
    (none, "", step.requires_approval && not auto_approve)
resolve_gate step (some policy) auto_approve preapproved_tools =
    let (classification, reason) = classify_step step in
    let preapproved = contains (normalize_preapproved preapproved_tools) step.type in
    (
      some classification,
      reason,
      requires_stop policy classification step.requires_approval preapproved,
    )

-- The loop normalises the run's pre-approval and passes the set on.
abbrev pub preapproved_of : Run → List String
preapproved_of run = normalize_preapproved run.preapproved_tools

unfoldable pub run_gate : Step → Run → Option Tier × String × Bool
run_gate step run =
    resolve_gate step run.approval_policy run.auto_approve (arr (of_strings (preapproved_of run)))

abbrev pub tier_name : Tier → String
tier_name auto_safe = "auto_safe"
tier_name review_recommended = "review_recommended"
tier_name hard_gated = "hard_gated"

abbrev pub is_hard_gated : Option Tier → Bool
is_hard_gated (some hard_gated) = true
is_hard_gated _ = false

-- `data[key] = value` and `{**base, **extra}`: a key that is there keeps its place.
unfoldable pub dict_set : String → Json → Payload → Payload
dict_set k v [] = (k, v) ∷ []
dict_set k v ((j, w) ∷ l) = if j == k then (k, v) ∷ l else (j, w) ∷ dict_set k v l

unfoldable pub dict_merge : Payload → Payload → Payload
dict_merge base [] = base
dict_merge base ((k, v) ∷ extra) = dict_merge (dict_set k v base) extra

abbrev granted_entries : Option String → Option Tier → Payload
granted_entries (some policy) (some tier) =
    ("policy", str policy) ∷ ("classification", str (tier_name tier)) ∷ []
granted_entries _ _ = []

abbrev preapproved_entry : Bool → Payload
preapproved_entry true = ("preapproved", bool true) ∷ []
preapproved_entry false = []

-- The payload of `agent.approval.granted`.
unfoldable pub approval_payload : Option String → Option Tier → Bool → Payload
approval_payload policy classification preapproved_gate =
    dict_merge (dict_merge (("auto", bool true) ∷ []) (granted_entries policy classification))
      (preapproved_entry preapproved_gate)

-- `_run_failure_reported`, over the run's events.
unfoldable pub failure_reported : String → List Event → Bool
failure_reported step_id [] = false
failure_reported step_id (e ∷ events) =
    ((e.type == run_failed) && (e.agent_step_id == step_id)) || failure_reported step_id events
