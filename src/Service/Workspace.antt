-- ===== src/Service/Workspace.antt =====
-- slimx_agent/service.py: `POST /internal/run-check`, up to the check that it runs. The file system
-- and the process are parameters.
use slimx_agent.Prelude.{
  ℕ, String, ◌<>◌, ◌==◌, Bool, true, false, not, ◌&&◌, ◌||◌, Option, none, some, List, [], ◌∷◌,
  if◌then◌else◌, leb, eqb, length, all, contains, strip,
}
use Prim.Native.Char.{code}
use Prim.Native.String.{count}
use slimx_agent.Json.{ℤ, pos}
use slimx_agent.Service.Auth.{
  HttpException, Served, answered, refused, failed, require_run_check_token,
}
use slimx_agent.Service.RunCheck.{Round, CheckResult, run_bounded_check}

abbrev within : ℕ → ℕ → ℕ → Bool
within lo hi c = leb lo c && leb c hi

-- `[A-Za-z0-9]`
abbrev pub is_alphanumeric : ℕ → Bool
is_alphanumeric c = within 48 57 c || within 65 90 c || within 97 122 c

-- `[A-Za-z0-9_.:-]`
abbrev pub is_id_char : ℕ → Bool
is_id_char c = is_alphanumeric c || eqb c 95 || eqb c 46 || eqb c 58 || eqb c 45

unfoldable pub all_chars : (ℕ → Bool) → String → Bool
all_chars p String.[] = true
all_chars p (String.◌∷◌ c s) = p (code c) && all_chars p s

-- Whether a text matches `RUN_ID_PATTERN`.
unfoldable pub is_run_id : String → Bool
unfolding all_chars
is_run_id String.[] = false
is_run_id (String.◌∷◌ c s) = is_alphanumeric (code c) && all_chars is_id_char s && leb (count s) 127

-- `timeout_seconds` is a float; pydantic's test of its range is a parameter.
pub record RunCheckBody (Seconds : Type 0) : Type 0 where
  pub argv : List String
  pub run_id : String
  pub timeout_seconds : Seconds
  pub output_cap : ℕ

-- `"\x00" not in part`, `min_length=1, max_length=4096`
abbrev is_argument : String → Bool
is_argument part =
    leb 1 (count part) && leb (count part) 4096 && all_chars (λ c. not (eqb c 0)) part

-- Whether the model accepts a body whose fields have their types.
unfoldable pub accepts : {Seconds : Type 0} → (Seconds → Bool) → RunCheckBody Seconds → Bool
unfolding is_run_id all_chars
accepts in_range body =
    leb 1 (length body.argv)
    && leb (length body.argv) 64
    && all is_argument body.argv
    && is_run_id body.run_id
    && in_range body.timeout_seconds
    && leb 1 body.output_cap
    && leb body.output_cap 100000

-- `_env_flag`, of a variable's value; `lower` is `str.lower`.
unfoldable pub env_flag : (String → String) → Option String → Bool
env_flag lower value =
    contains ("1" ∷ "true" ∷ "yes" ∷ "on" ∷ [])
      (lower (strip (elim value [ none ↦ "" | some v ↦ v ])))

-- What starting a process and watching it shows: an `OSError` by its `strerror`, or the rounds of
-- reading, the looks at its exit, and its return code.
pub data Process : Type 0 where
  not_started : Option String → Process
  watched : List Round → List (Bool × Bool) → ℤ → Process

-- The file system and the processes of the machine.
pub record Machine (Seconds : Type 0) : Type 1 where
  pub World : Type 0
  pub realpath : String → World → String
  pub join : String → String → String
  pub dirname : String → String
  pub isdir : String → World → Bool
  -- the command, its directory and its timeout
  pub spawn : List String → String → Seconds → World → Process × World

-- The answer of the endpoint; `output` is decoded by a parameter.
pub record CheckAnswer : Type 0 where
  pub ok : Bool
  pub exit_code : Option ℤ
  pub timed_out : Bool
  pub output : String
  pub output_truncated : Bool

abbrev pub is_zero : Option ℤ → Bool
is_zero (some (pos n)) = eqb n 0
is_zero _ = false

abbrev strerror : Option String → String
strerror none = "error"
strerror (some text) = if text == "" then "error" else text

abbrev pub no_workspace : HttpException
no_workspace = record { status_code = 404; detail = "run workspace not found on this volume" }

-- `os.environ.get("AGENT_WORKSPACE_ROOT", "/workspaces")`
abbrev pub workspace_root : Option String → String
workspace_root none = "/workspaces"
workspace_root (some root) = root

module _ {Seconds : Type 0} (machine : Machine Seconds) (decode : List ℕ → String) where
  -- `none`: what the process has shown so far does not end the check.
  abbrev answer_of : Option CheckResult → Option CheckAnswer
  answer_of none = none
  answer_of (some r) = some (record {
    ok = is_zero r.exit_code;
    exit_code = r.exit_code;
    timed_out = r.timed_out;
    output = decode r.output;
    output_truncated = r.truncated;
  })

  unfoldable pub checked : ℕ → Process → Option CheckAnswer
  checked output_cap (not_started reason) = some (record {
    ok = false;
    exit_code = none;
    timed_out = false;
    output = "could not start the check command: " <> strerror reason;
    output_truncated = false;
  })
  checked output_cap (watched rounds looks returncode) =
      answer_of (run_bounded_check output_cap rounds looks returncode)

  -- The directory of the check: a directory directly under the root, or none.
  unfoldable pub workspace : Option String → String → machine.World → Option String
  workspace env_root run_id w =
      let root = machine.realpath (workspace_root env_root) w in
      let cwd = machine.realpath (machine.join root run_id) w in
      if not (machine.dirname cwd == root) || not (machine.isdir cwd w) then none else some cwd

  unfoldable pub check_in :
      RunCheckBody Seconds
      → Option String
      → machine.World
      → Served (Option CheckAnswer) × machine.World
  unfolding checked
  check_in body none w = (refused no_workspace, w)
  check_in body (some cwd) w =
      let (process, w') = machine.spawn body.argv cwd body.timeout_seconds w in
      (answered (checked body.output_cap process), w')

  abbrev permitted :
      RunCheckBody Seconds
      → Option String
      → Served (Unit {0})
      → machine.World
      → Served (Option CheckAnswer) × machine.World
  permitted body env_root (refused x) w = (refused x, w)
  permitted body env_root (failed e) w = (failed e, w)
  permitted body env_root (answered _) w = check_in body (workspace env_root body.run_id w) w

  -- `run_check`, after its token dependency and the validation of the body.
  unfoldable pub run_check :
      Option String
      → Option String
      → Option String
      → RunCheckBody Seconds
      → machine.World
      → Served (Option CheckAnswer) × machine.World
  unfolding check_in workspace
  run_check env_token authorization env_root body w =
      permitted body env_root (require_run_check_token env_token authorization) w
