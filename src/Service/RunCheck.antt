-- ===== src/Service/RunCheck.antt =====
-- slimx_agent/service.py, `_run_bounded_check`: the reading of a check's output, and its result. The
-- process is a parameter, by what its pipe and its exit show the loop.
use slimx_agent.Json.{ℤ}
use slimx_agent.Prelude.{
  ℕ, zero, suc, ◌-◌, Bool, true, false, ◌||◌, not, Option, none, some, List, [], ◌∷◌, ◌++◌,
  if◌then◌else◌, ltb, length,
}

-- One round of the loop: the deadline has passed, nothing was ready in time, or a read of the pipe;
-- an empty read says that every writer has closed it.
pub data Round : Type 0 where
  late quiet : Round
  read : List ℕ → Round

pub record Output : Type 0 where
  pub retained : List ℕ
  pub truncated : Bool
  pub timed_out : Bool

unfoldable pub take : ℕ → List ℕ → List ℕ
take zero l = []
take (suc n) [] = []
take (suc n) (x ∷ l) = x ∷ take n l

-- `room = output_cap - len(retained)`; the slice of a chunk that still fits.
unfoldable pub keep_chunk : ℕ → List ℕ → Output → Output
unfolding take
keep_chunk output_cap chunk out =
    let room = output_cap - length out.retained in
    record out {
      retained = out.retained ++ take room chunk;
      truncated = out.truncated || ltb room (length chunk);
    }

-- The `while True` loop over the rounds that come; `none` means that it has not ended yet.
unfoldable pub read_loop : ℕ → List Round → Output → Option Output
unfolding keep_chunk
read_loop output_cap [] out = none
read_loop output_cap (late ∷ rounds) out = some (record out { timed_out = true })
read_loop output_cap (quiet ∷ rounds) out = read_loop output_cap rounds out
read_loop output_cap (read [] ∷ rounds) out = some out
read_loop output_cap (read (b ∷ chunk) ∷ rounds) out =
    read_loop output_cap rounds (keep_chunk output_cap (b ∷ chunk) out)

abbrev pub empty_output : Output
empty_output = record { retained = []; truncated = false; timed_out = false }

-- One look of `_group_leader_exited_by`: whether the leader has exited, and whether the deadline has
-- passed; `none` means that it looks on.
unfoldable pub group_leader_exited_by : List (Bool × Bool) → Option Bool
group_leader_exited_by [] = none
group_leader_exited_by ((exited, passed) ∷ looks) =
    let rest = group_leader_exited_by looks in
    if exited then some true else if passed then some false else rest

pub record CheckResult : Type 0 where
  pub exit_code : Option ℤ
  pub timed_out : Bool
  pub output : List ℕ
  pub truncated : Bool

abbrev pub result : Output → Bool → ℤ → CheckResult
result out timed_out returncode = record {
  exit_code = if timed_out then none else some returncode;
  timed_out = timed_out;
  output = out.retained;
  truncated = out.truncated;
}

abbrev pub waited : Output → Option Bool → ℤ → Option CheckResult
waited out none returncode = none
waited out (some exited) returncode = some (result out (not exited) returncode)

-- After the loop: the wait for the leader, which is left out when the time is up already.
abbrev pub after_loop : Option Output → List (Bool × Bool) → ℤ → Option CheckResult
after_loop none looks returncode = none
after_loop (some out) looks returncode =
    if out.timed_out
    then some (result out true returncode)
    else waited out (group_leader_exited_by looks) returncode

unfoldable pub run_bounded_check : ℕ → List Round → List (Bool × Bool) → ℤ → Option CheckResult
unfolding read_loop group_leader_exited_by
run_bounded_check output_cap rounds looks returncode =
    after_loop (read_loop output_cap rounds empty_output) looks returncode

-- The bytes that the loop read, up to where it ended.
abbrev pub stream : List Round → List ℕ
stream [] = []
stream (late ∷ rounds) = []
stream (quiet ∷ rounds) = stream rounds
stream (read [] ∷ rounds) = []
stream (read (b ∷ chunk) ∷ rounds) = (b ∷ chunk) ++ stream rounds
