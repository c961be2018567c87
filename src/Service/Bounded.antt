-- ===== src/Service/Bounded.antt =====
-- slimx_agent/service.py, `_run_bounded_check`: what of a check's output is kept, and what its result
-- says.
use slimx_agent.Json.{ℤ}
use slimx_agent.Prelude.{
  ℕ, zero, suc, ◌+◌, ◌-◌, ◌≤◌, ◌≡◌, refl, ◌↔◌, Bool, true, false, ◌||◌, not, Option, none, some,
  List, [], ◌∷◌, ◌++◌, if◌then◌else◌, ltb, leb, length, arith, Bool-cases, inl, inr, append_assoc,
  append-nil, ap, sym, subst, ◌∙◌, is_some, any,
}
use slimx_agent.Service.RunCheck.{
  Round, late, quiet, read, Output, take, keep_chunk, read_loop, empty_output,
  group_leader_exited_by, CheckResult, run_bounded_check, stream, after_loop, waited, result,
}

length-append : (xs ys : List ℕ) → length (xs ++ ys) ≡ length xs + length ys
length-append [] ys = omega arith
length-append (x ∷ xs) ys = omega (arith, length-append xs ys)

take-append : (n : ℕ) (s t : List ℕ) → take n s ++ take (n - length (take n s)) t ≡ take n (s ++ t)
unfolding take
take-append zero s t = refl
take-append (suc n) [] t = ap (λ (k : ℕ). take k t) {y = suc n} (omega arith)
take-append (suc n) (x ∷ s) t =
    ap (λ (k : ℕ). x ∷ (take n s ++ take k t)) {y = n - length (take n s)} (omega arith)
    ∙ ap (λ (l : List ℕ). x ∷ l) (take-append n s t)

length-take : (n : ℕ) (s : List ℕ) → length (take n s) ≡ (if leb n (length s) then n else length s)
unfolding take
length-take zero s = ground arith
length-take (suc n) [] = ground arith
length-take (suc n) (x ∷ s) = ground (arith, length-take n s)

room_lem :
    (n k : ℕ) (s : List ℕ)
    → (ltb n (length s) || ltb (n - length (take n s)) k) ≡ ltb n (length s + k)
room_lem n k s = ground (arith, length-take n s)

-- What has been read so far is kept up to the cap, and the flag says whether anything was dropped.
record Kept (cap : ℕ) (bytes : List ℕ) (out : Output) : Type 0 where
  retained : out.retained ≡ take cap bytes
  truncated : out.truncated ≡ ltb cap (length bytes)

keep_chunk-Kept :
    (cap : ℕ) (bytes chunk : List ℕ) (out : Output)
    → Kept cap bytes out
    → Kept cap (bytes ++ chunk) (keep_chunk cap chunk out)
unfolding keep_chunk
keep_chunk-Kept cap bytes chunk out k = record {
  retained = rw k.retained (take-append cap bytes chunk);
  truncated =
      rw (k.retained, k.truncated, length-append bytes chunk) (room_lem cap (length chunk) bytes);
}

some_inj : {x y : Output} → some x ≡ some y → x ≡ y
some_inj e = cc

read_loop-Kept :
    (cap : ℕ) (rounds : List Round) (bytes : List ℕ) (start out : Output)
    → Kept cap bytes start
    → read_loop cap rounds start ≡ some out
    → Kept cap (bytes ++ stream rounds) out
unfolding read_loop
read_loop-Kept cap [] bytes start out k e = absurd (none-ne-some e)
  where
    none-ne-some : {o : Output} → none ≡ some o → ⊥
    none-ne-some e = cc
read_loop-Kept cap (late ∷ rounds) bytes start out k e = rw (append-nil bytes) (
    subst (Kept cap bytes) (some_inj e) (record { retained = k.retained; truncated = k.truncated }))
read_loop-Kept cap (quiet ∷ rounds) bytes start out k e =
    read_loop-Kept cap rounds bytes start out k e
read_loop-Kept cap (read [] ∷ rounds) bytes start out k e =
    rw (append-nil bytes) (subst (Kept cap bytes) (some_inj e) k)
read_loop-Kept cap (read (b ∷ chunk) ∷ rounds) bytes start out k e =
    subst (λ (l : List ℕ). Kept cap l out) (append_assoc bytes (b ∷ chunk) (stream rounds))
      (read_loop-Kept cap rounds (bytes ++ b ∷ chunk) (keep_chunk cap (b ∷ chunk) start) out
        (keep_chunk-Kept cap bytes (b ∷ chunk) start k) e)

take-nil : (n : ℕ) → take n [] ≡ []
unfolding take
take-nil zero = refl
take-nil (suc n) = refl

start-Kept : (cap : ℕ) → Kept cap [] empty_output
start-Kept cap = record { retained = sym (take-nil cap); truncated = ground arith }

-- A round that finds the deadline passed or the pipe closed, and a look that is the last.
abbrev pub is_end : Round → Bool
is_end late = true
is_end quiet = false
is_end (read []) = true
is_end (read (_ ∷ _)) = false

abbrev pub is_last : Bool × Bool → Bool
is_last (exited, passed) = exited || passed

-- The loop ends exactly when some round does.
read_loop-ends_iff :
    (output_cap : ℕ) (rounds : List Round) (out : Output)
    → (is_some (read_loop output_cap rounds out) ≡ true) ↔ (any is_end rounds ≡ true)
unfolding read_loop
read_loop-ends_iff cap [] out = ground arith
read_loop-ends_iff cap (late ∷ rounds) out = ground arith
read_loop-ends_iff cap (quiet ∷ rounds) out = read_loop-ends_iff cap rounds out
read_loop-ends_iff cap (read [] ∷ rounds) out = ground arith
read_loop-ends_iff cap (read (b ∷ chunk) ∷ rounds) out =
    read_loop-ends_iff cap rounds (keep_chunk cap (b ∷ chunk) out)

read_loop_lem :
    (cap : ℕ) (rounds : List Round) (out : Output)
    → read_loop cap rounds empty_output ≡ some out
    → (out.retained ≡ take cap (stream rounds)) × (out.truncated ≡ ltb cap (length (stream rounds)))
read_loop_lem cap rounds out e =
    let k = read_loop-Kept cap rounds [] empty_output out (start-Kept cap) e in
    (k.retained, k.truncated)

-- The parts of a result that was made of an output.
record MadeOf (out : Output) (returncode : ℤ) (r : CheckResult) : Type 0 where
  output : r.output ≡ out.retained
  truncated : r.truncated ≡ out.truncated
  exit_code : r.exit_code ≡ (if r.timed_out then none else some returncode)

result_inj : {x y : CheckResult} → some x ≡ some y → x ≡ y
result_inj e = cc

result-MadeOf :
    (out : Output) (timed_out : Bool) (returncode : ℤ) (r : CheckResult)
    → some (result out timed_out returncode) ≡ some r
    → MadeOf out returncode r
result-MadeOf out timed_out returncode r e =
    subst (MadeOf out returncode) (result_inj e)
      (record { output = refl; truncated = refl; exit_code = refl })

waited-MadeOf :
    (out : Output) (o : Option Bool) (returncode : ℤ) (r : CheckResult)
    → waited out o returncode ≡ some r
    → MadeOf out returncode r
waited-MadeOf out none returncode r e = absurd (never e)
  where
    never : {x : CheckResult} → none ≡ some x → ⊥
    never e = cc
waited-MadeOf out (some exited) returncode r e = result-MadeOf out (not exited) returncode r e

after_loop-MadeOf :
    (o : Option Output) (looks : List (Bool × Bool)) (returncode : ℤ) (r : CheckResult)
    → after_loop o looks returncode ≡ some r
    → (out : Output) × (o ≡ some out) × MadeOf out returncode r
after_loop-MadeOf none looks returncode r e = absurd (never e)
  where
    never : {x : CheckResult} → none ≡ some x → ⊥
    never e = cc
after_loop-MadeOf (some out) looks returncode r e = (
  out,
  refl,
  elim (Bool-cases out.timed_out) [
    | inl up ↦ result-MadeOf out true returncode r (rw up at e)
    | inr early ↦ waited-MadeOf out (group_leader_exited_by looks) returncode r (rw early at e)
  ],
)

-- A check's output is the first `output_cap` bytes of what the process wrote until the loop ended,
-- however they came in chunks; `truncated` says exactly whether it wrote more; and there is an exit
-- code, which is the process's, exactly when the check did not time out.
pub run_bounded_check_lem :
    (output_cap : ℕ) (rounds : List Round) (looks : List (Bool × Bool)) (returncode : ℤ)
    (r : CheckResult)
    → run_bounded_check output_cap rounds looks returncode ≡ some r
    → (r.output ≡ take output_cap (stream rounds))
      × (length r.output ≤ output_cap)
      × (r.truncated ≡ ltb output_cap (length (stream rounds)))
      × (r.exit_code ≡ (if r.timed_out then none else some returncode))
unfolding run_bounded_check
run_bounded_check_lem cap rounds looks returncode r e =
    let (out, ended, made) =
      after_loop-MadeOf (read_loop cap rounds empty_output) looks returncode r e in
    let (retained, flag) = read_loop_lem cap rounds out ended in
    let output = made.output ∙ retained in
    (
      output,
      ground (arith, length-take cap (stream rounds), ap (length {A = ℕ}) output),
      made.truncated ∙ flag,
      made.exit_code,
    )

group_leader-ends :
    (looks : List (Bool × Bool))
    → any is_last looks ≡ true
    → is_some (group_leader_exited_by looks) ≡ true
unfolding group_leader_exited_by
group_leader-ends [] h = h
group_leader-ends ((true, passed) ∷ looks) h = refl
group_leader-ends ((false, true) ∷ looks) h = refl
group_leader-ends ((false, false) ∷ looks) h = group_leader-ends looks h

waited-ends :
    (out : Output) (o : Option Bool) (returncode : ℤ)
    → is_some o ≡ true
    → is_some (waited out o returncode) ≡ true
waited-ends out none returncode h = h
waited-ends out (some exited) returncode h = refl

after_loop-ends :
    (o : Option Output) (looks : List (Bool × Bool)) (returncode : ℤ)
    → is_some o ≡ true
    → any is_last looks ≡ true
    → is_some (after_loop o looks returncode) ≡ true
after_loop-ends none looks returncode h last = h
after_loop-ends (some out) looks returncode h last = elim (Bool-cases out.timed_out) [
  | inl over ↦ rw over refl
  | inr in_time ↦
      rw in_time
        (waited-ends out (group_leader_exited_by looks) returncode (group_leader-ends looks last))
]

-- A check comes to a result, once a round finds the deadline passed or the pipe closed and a look
-- finds the leader exited or the deadline passed.
pub run_bounded_check_total :
    (output_cap : ℕ) (rounds : List Round) (looks : List (Bool × Bool)) (returncode : ℤ)
    → any is_end rounds ≡ true
    → any is_last looks ≡ true
    → is_some (run_bounded_check output_cap rounds looks returncode) ≡ true
unfolding run_bounded_check
run_bounded_check_total cap rounds looks returncode ends last =
    after_loop-ends (read_loop cap rounds empty_output) looks returncode
      ((read_loop-ends_iff cap rounds empty_output).1 ends) last
