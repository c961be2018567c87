-- ===== src/Tests/Checks.antt =====
-- A machine with one workspace, and the theorems on the run-check endpoint and on the answers to
-- invalid requests.
use slimx_agent.Prelude.{
  ℕ, String, ◌<>◌, ◌==◌, ◌≡◌, refl, ◌≢◌, ◌≤◌, ◌⊎◌, true, false, none, some, List, [], ◌∷◌,
}
use Prim.Native.String.{count}
use slimx_agent.Json.{Json, pos, str, arr, obj, nil, cons, Fields, end, field, set}
use slimx_agent.HostClient.Urls.{utf8, utf8_char}
use slimx_agent.HostClient.Errors.{max_detail_chars}
use slimx_agent.Service.Auth.{
  HttpException, answered, refused, require_run_check_token, token_matches, compare_digest,
}
use slimx_agent.Service.RunCheck.{
  read, run_bounded_check, read_loop, keep_chunk, take, group_leader_exited_by,
}
use slimx_agent.Service.Workspace.{
  Machine, RunCheckBody, Process, watched, run_check, check_in, workspace, checked, is_run_id,
  all_chars,
}
use slimx_agent.Service.Confined.{Started, run_check-confined, is_segment_char, is_run_id-segment}
use slimx_agent.Service.Validation.{shown, sanitized_validation_errors, sanitized-blind}

abbrev spawned : List String → String → ℕ → List String → Process × List String
spawned argv cwd timeout started =
    (watched (read (111 ∷ []) ∷ read [] ∷ []) ((true, false) ∷ []) (pos 0), cwd ∷ started)

-- A machine whose paths are all real, with the directories of a list under `/workspaces`.
abbrev one_workspace : Machine ℕ
one_workspace = record {
  World = List String;
  realpath = λ path w. path;
  join = λ root id. root <> ("/" <> id);
  dirname = λ path. "/workspaces";
  isdir = λ path w. path == "/workspaces/r1";
  spawn = spawned;
}

abbrev decoded : List ℕ → String
decoded bytes = "o"

abbrev tests_body : RunCheckBody ℕ
tests_body = record {
  argv = "pytest" ∷ [];
  run_id = "r1";
  timeout_seconds = 120;
  output_cap = 20000;
}

run_check-confined_example :
    ((x : HttpException) × (run_check one_workspace decoded
          (some "s3")
          (some "Bearer s3")
          none
          tests_body
          []
        ≡ (refused x, [])))
    ⊎ Started one_workspace decoded none tests_body [] (some "s3") (some "Bearer s3")
run_check-confined_example =
    run_check-confined one_workspace decoded none tests_body [] (some "s3") (some "Bearer s3")

abbrev first_run : String
first_run = "r1"

r1-is_run_id : is_run_id first_run ≡ true
unfolding is_run_id all_chars
r1-is_run_id = refl

is_run_id-segment_example :
    (all_chars is_segment_char first_run ≡ true)
    × (first_run ≢ ".")
    × (first_run ≢ "..")
    × (count first_run ≤ 128)
is_run_id-segment_example = is_run_id-segment first_run r1-is_run_id

abbrev missing_model : Fields
missing_model = field "type" (str "missing") (
    field "loc" (arr (cons (str "body") (cons (str "model") nil)))
      (field "msg" (str "Field required") end))

sanitized-blind_example :
    (sanitized_validation_errors (obj (set "input" (str "secret") missing_model) ∷ [])
      ≡ sanitized_validation_errors (obj missing_model ∷ []))
    × ((error : Json) → count (shown error).msg ≤ max_detail_chars)
sanitized-blind_example = sanitized-blind [] [] "input" (str "secret") missing_model refl

-- The check runs in the run's workspace, and says what it says.
check_runs : run_check one_workspace decoded (some "s3") (some "Bearer s3") none tests_body [] ≡ (
  answered (
      some (record {
        ok = true;
        exit_code = some (pos 0);
        timed_out = false;
        output = "o";
        output_truncated = false;
      })),
  "/workspaces/r1" ∷ [],
)
unfolding run_check require_run_check_token token_matches compare_digest utf8 utf8_char check_in
    workspace checked run_bounded_check read_loop keep_chunk take group_leader_exited_by
check_runs = refl

-- A path in place of a run id is no run id.
no_path : is_run_id "../r2" ≡ false
unfolding is_run_id all_chars
no_path = refl
