-- ===== src/Service/Confined.antt =====
-- slimx_agent/service.py, `run_check`: which requests start a process, and where.
use slimx_agent.Prelude.{
  ℕ, ◌≤◌, String, ◌==◌, ◌≡◌, ◌≢◌, refl, ◌⊎◌, inl, inr, Bool, true, false, not, ◌&&◌, ◌||◌, Option,
  none, some, List, subst, ap, sym, ◌∙◌, arith, Bool-cases, eq_iff, eqb, leb,
}
use Prim.Native.Char.{code}
use Prim.Native.String.{count}
use text.Mathlib.TextLemmas.{length-cons}
use slimx_agent.Service.Auth.{
  Served, refused, require_run_check_token, configured, token_matches, HttpException,
}
use slimx_agent.Service.Workspace.{
  no_workspace, workspace_root, Machine, RunCheckBody, CheckAnswer, run_check, check_in, workspace,
  is_run_id, all_chars, is_alphanumeric, is_id_char,
}

all_chars-implies :
    (p q : ℕ → Bool) (s : String)
    → ((c : ℕ) → p c ≡ true → q c ≡ true)
    → all_chars p s ≡ true
    → all_chars q s ≡ true
unfolding all_chars
all_chars-implies p q String.[] imp h = refl
all_chars-implies p q (String.◌∷◌ c s) imp h =
    ground (arith, imp (code c), all_chars-implies p q s imp, h)

-- A character that separates no path segments: neither `/` nor NUL.
abbrev pub is_segment_char : ℕ → Bool
is_segment_char c = not (eqb c 47 || eqb c 0)

id_char-segment : (c : ℕ) → is_id_char c ≡ true → is_segment_char c ≡ true
id_char-segment c h = ground arith

alphanumeric-id_char : (c : ℕ) → is_alphanumeric c ≡ true → is_id_char c ≡ true
alphanumeric-id_char c h = ground arith

first_code : String → ℕ
first_code String.[] = 0
first_code (String.◌∷◌ c s) = code c

first_alphanumeric : (s : String) → is_run_id s ≡ true → is_alphanumeric (first_code s) ≡ true
unfolding is_run_id first_code
first_alphanumeric String.[] h = absurd (cc h)
first_alphanumeric (String.◌∷◌ c s) h = ground (arith, h)

not_dots : (s : String) → is_alphanumeric (first_code s) ≡ true → (s ≢ ".") × (s ≢ "..")
unfolding first_code
not_dots s h = (
  λ e. false_true (subst (λ t. is_alphanumeric (first_code t) ≡ true) e h),
  λ e. false_true (subst (λ t. is_alphanumeric (first_code t) ≡ true) e h),
)
  where
    false_true : false ≡ true → ⊥
    false_true p = cc

segment_chars :
    (s : String) → is_run_id s ≡ true → (all_chars is_segment_char s ≡ true) × (count s ≤ 128)
unfolding is_run_id all_chars
segment_chars String.[] h = absurd (cc h)
segment_chars (String.◌∷◌ c s) h =
    let (first, rest, short) = both (is_alphanumeric (code c)) (all_chars is_id_char s) _ h in
    (
      ground (
        arith,
        id_char-segment (code c) (alphanumeric-id_char (code c) first),
        all_chars-implies is_id_char is_segment_char s id_char-segment rest,
      ),
      omega (arith, at_most (count s) short, length-cons c s),
    )
  where
    both : (a b c : Bool) → a && b && c ≡ true → (a ≡ true) × (b ≡ true) × (c ≡ true)
    both a b c h = ground (arith, h)

    at_most : (n : ℕ) → leb n 127 ≡ true → n ≤ 127
    at_most n h = ground (arith, h)

-- A run id that the pattern accepts is one path segment, without a slash or a NUL, that is neither
-- `.` nor `..`, and has at most 128 characters.
pub is_run_id-segment :
    (s : String)
    → is_run_id s ≡ true
    → (all_chars is_segment_char s ≡ true) × (s ≢ ".") × (s ≢ "..") × (count s ≤ 128)
is_run_id-segment s h =
    let (plain, short) = segment_chars s h in
    let (dot, dots) = not_dots s (first_alphanumeric s h) in (plain, dot, dots, short)

module _ {Seconds : Type 0} (machine : Machine Seconds) (decode : List ℕ → String)
    (env_root : Option String) (body : RunCheckBody Seconds) (w : machine.World) where
  abbrev root_of : String
  root_of = machine.realpath (workspace_root env_root) w

  -- A directory that is directly under the workspaces' root, where both are real paths.
  pub record Confined (cwd : String) : Type 0 where
    pub resolved : cwd ≡ machine.realpath (machine.join root_of body.run_id) w
    pub directly_under : machine.dirname cwd ≡ root_of
    pub directory : machine.isdir cwd w ≡ true

  workspace-Confined :
      (cwd : String) → workspace machine decode env_root body.run_id w ≡ some cwd → Confined cwd
  unfolding workspace
  workspace-Confined cwd e = elim (Bool-cases (machine.dirname real == root_of)) [
    | inl under ↦ elim (Bool-cases (machine.isdir real w)) [
      | inl is_dir ↦ confined under is_dir (some_inj (rw is_dir at (rw under at e)))
      | inr missing ↦ absurd (none_some (rw missing at (rw under at e)))
    ]
    | inr elsewhere ↦ absurd (none_some (rw elsewhere at e))
  ]
    where
      real : String
      real = machine.realpath (machine.join root_of body.run_id) w

      some_inj : {a b : String} → some a ≡ some b → a ≡ b
      some_inj p = cc

      none_some : {a : String} → none ≡ some a → ⊥
      none_some p = cc

      confined :
          machine.dirname real == root_of ≡ true
          → machine.isdir real w ≡ true
          → real ≡ cwd
          → Confined cwd
      confined under is_dir same =
          subst Confined same
            (record { resolved = refl; directly_under = (eq_iff _ _).0 under; directory = is_dir })

  module _ (env_token authorization : Option String) where
    abbrev outcome : Served (Option CheckAnswer) × machine.World
    outcome = run_check machine decode env_token authorization env_root body w

    -- What stands where a process is started.
    pub record Started : Type 0 where
      pub has_token : configured env_token ≢ ""
      pub matches : token_matches authorization (configured env_token) ≡ true
      pub cwd : String
      pub confined : Confined cwd
      pub world_eq : outcome.1 ≡ (machine.spawn body.argv cwd body.timeout_seconds w).1

    outcome_lem :
        configured env_token == "" ≡ false
        → token_matches authorization (configured env_token) ≡ true
        → outcome ≡ check_in machine decode body (workspace machine decode env_root body.run_id w) w
    unfolding run_check require_run_check_token
    outcome_lem on matched = rw (on, matched) refl

    started :
        configured env_token == "" ≡ false
        → token_matches authorization (configured env_token) ≡ true
        → (found : Option String) → workspace machine decode env_root body.run_id w ≡ found
        → ((x : HttpException) × (outcome ≡ (refused x, w))) ⊎ Started
    unfolding check_in
    started on matched none e = inl (
      no_workspace,
      outcome_lem on matched ∙ ap (λ found. check_in machine decode body found w) e,
    )
    started on matched (some cwd) e = inr (record {
      has_token = λ empty. false_true (sym on ∙ (eq_iff _ _).1 empty);
      matches = matched;
      cwd = cwd;
      confined = workspace-Confined cwd e;
      world_eq =
          ap (λ out. out.1)
            (outcome_lem on matched ∙ ap (λ found. check_in machine decode body found w) e);
    })
      where
        false_true : false ≡ true → ⊥
        false_true p = cc

    -- A request to run a check is refused, and then nothing is started, or it starts one process: a
    -- token is configured and the bearer token is that one, and the directory is directly under the
    -- workspaces' root, where both are real paths.
    pub run_check-confined : ((x : HttpException) × (outcome ≡ (refused x, w))) ⊎ Started
    unfolding run_check require_run_check_token
    run_check-confined = elim (Bool-cases (configured env_token == "")) [
      | inl off ↦ rw off (inl (_, refl))
      | inr on ↦ elim (Bool-cases (token_matches authorization (configured env_token))) [
        | inl matched ↦ started on matched _ refl
        | inr other ↦ rw (on, other) (inl (_, refl))
      ]
    ]
