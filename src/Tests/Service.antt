-- ===== src/Tests/Service.antt =====
-- The service's theorems at concrete inputs.
use slimx_agent.Prelude.{
  ◌≡◌, refl, ◌≢◌, ◌↔◌, ◌≤◌, ◌⊎◌, ℕ, ◌<>◌, true, false, none, some, List, [], ◌∷◌, if◌then◌else◌,
  length, ltb, is_some,
}
use slimx_agent.Json.{pos}
use slimx_agent.Service.Auth.{
  answered, ProfileBody, require_internal_token, require_run_check_token, configured,
}
use slimx_agent.Service.Tokens.{tokens_required}
use slimx_agent.Service.RunCheck.{
  Round, quiet, read, take, run_bounded_check, read_loop, keep_chunk, CheckResult, stream,
  group_leader_exited_by,
}
use slimx_agent.Service.Bounded.{run_bounded_check_lem, run_bounded_check_total}
use slimx_agent.Service.Bridge.{
  Bridge, opened, publish, leave, Reached, begun, after, yields, disconnects,
}
use slimx_agent.Service.Observed.{IsFaithful, Reached-IsFaithful}

tokens_required_example :
    ((require_internal_token (some "s3") (some "Bearer s3") ≡ answered tt) ↔ (
      (configured (some "s3") ≡ "")
      ⊎ (some "Bearer s3" ≡ some ("Bearer " <> configured (some "s3")))))
    × ((require_run_check_token (some "s3") (some "Bearer s3") ≡ answered tt) ↔ (
        (configured (some "s3") ≢ "")
        × (some "Bearer s3" ≡ some ("Bearer " <> configured (some "s3")))))
tokens_required_example = tokens_required (some "s3") (some "Bearer s3")

abbrev pub leased : ProfileBody
leased = record {
  provider = "ollama";
  model = "qwen3";
  base_url = none;
  lease_job_id = some "j1";
  lease_token = some "t1";
  lease_generation = some 3;
}

abbrev rounds : List Round
rounds = read (1 ∷ 2 ∷ []) ∷ quiet ∷ read (3 ∷ 4 ∷ []) ∷ read [] ∷ []

abbrev checked : CheckResult
checked = record {
  exit_code = some (pos 0);
  timed_out = false;
  output = 1 ∷ 2 ∷ 3 ∷ [];
  truncated = true;
}

checks : run_bounded_check 3 rounds ((true, false) ∷ []) (pos 0) ≡ some checked
unfolding run_bounded_check read_loop keep_chunk take group_leader_exited_by
checks = refl

run_bounded_check_lem_example :
    (checked.output ≡ take 3 (stream rounds))
    × (length checked.output ≤ 3)
    × (checked.truncated ≡ ltb 3 (length (stream rounds)))
    × (checked.exit_code ≡ (if checked.timed_out then none else some (pos 0)))
run_bounded_check_lem_example =
    run_bounded_check_lem 3 rounds ((true, false) ∷ []) (pos 0) checked checks

run_bounded_check_total_example :
    is_some (run_bounded_check 3 rounds ((true, false) ∷ []) (pos 0)) ≡ true
run_bounded_check_total_example =
    run_bounded_check_total 3 rounds ((true, false) ∷ []) (pos 0) refl refl

abbrev numbers : List ℕ
numbers = 1 ∷ 2 ∷ []

abbrev at_first : Bridge ℕ
at_first = publish 1 (2 ∷ []) (opened numbers)

-- The observer goes away behind the first item.
abandoned : Reached numbers (leave at_first)
unfolding publish
abandoned =
    after at_first (leave at_first)
      (after (opened numbers) at_first (begun (opened numbers) refl) (yields 1 (2 ∷ []) refl refl))
      (disconnects refl refl)

Reached-IsFaithful_example : IsFaithful numbers (leave at_first)
Reached-IsFaithful_example = Reached-IsFaithful numbers (leave at_first) abandoned
