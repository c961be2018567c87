-- ===== src/HttpStore/Strict.antt =====
-- slimx_agent/http_store.py: what a snapshot that was parsed says of its wire form.
use slimx_agent.Prelude.{
  String, ◌≡◌, refl, ◌≢◌, ◌↔◌, ◌⊎◌, Bool, true, false, Option, none, some, List, [], ◌∷◌, arith,
  eq_iff, contains, ap, sym, subst, not, Option-cases,
}
use slimx_agent.Contracts.{step_statuses}
use slimx_agent.Json.{ℤ, Json, null, bool, int, str, arr, Items, nil, cons, Fields, get, of_strings}
use slimx_agent.Outcomes.{ok, >>=-eq-ok, ok_inj, refuse_if, refuse_if-ok}
use slimx_agent.HostClient.Profile.{nullable}
use slimx_agent.HttpStore.Fields.{
  required_str, optional_str, optional_bool, optional_int, all_strings, optional_str_list, text_at,
  text_or_null_at, flag_at, number_at, texts_at,
}
use slimx_agent.HttpStore.Snapshots.{
  RunSnapshot, StepSnapshot, run_from_wire, step_from_wire, nullable_list, nullable_int,
  or_empty_text,
}

all_strings_iff : (vs : Items) (l : List String) → (all_strings vs ≡ some l) ↔ (vs ≡ of_strings l)
unfolding all_strings
all_strings_iff nil [] = ground arith
all_strings_iff nil (x ∷ l) = ground arith
all_strings_iff (cons (str s) vs) [] = ground (arith, Option-cases (all_strings vs))
all_strings_iff (cons (str s) vs) (x ∷ l) =
    ground (arith, all_strings_iff vs l, Option-cases (all_strings vs))
all_strings_iff (cons v vs) [] = ground arith
all_strings_iff (cons v vs) (x ∷ l) = ground arith

-- A flag is read from a literal, or from its absence.
abbrev pub SaysFlag : Json → Bool → Type 0
SaysFlag v b = (v ≡ bool b) ⊎ (v ≡ null) × (b ≡ false)

module _ (wire : Fields) (key what : String) where
  required_str_iff :
      (s : String) → (required_str wire key what ≡ ok s) ↔ ((get key wire ≡ str s) × (s ≢ ""))
  unfolding required_str
  required_str_iff s = at (get key wire)
    where
      at : (v : Json) → (text_at wire key what v ≡ ok s) ↔ ((v ≡ str s) × (s ≢ ""))
      at (str t) = ground (arith, eq_iff t "", eq_iff s "")
      at v = ground arith

  optional_str_iff :
      (o : Option String) → (optional_str wire key what ≡ ok o) ↔ (get key wire ≡ nullable o)
  unfolding optional_str
  optional_str_iff o = at (get key wire) o
    where
      at :
          (v : Json) (o : Option String)
          → (text_or_null_at wire key what v ≡ ok o) ↔ (v ≡ nullable o)
      at (str t) none = ground arith
      at (str t) (some s) = ground arith
      at v none = ground arith
      at v (some s) = ground arith

  optional_bool_iff : (b : Bool) → (optional_bool wire key what ≡ ok b) ↔ SaysFlag (get key wire) b
  unfolding optional_bool
  optional_bool_iff b = at (get key wire)
    where
      at : (v : Json) → (flag_at wire key what v ≡ ok b) ↔ SaysFlag v b
      at (bool c) = ground arith
      at v = ground arith

  optional_int_iff :
      (o : Option ℤ) → (optional_int wire key what ≡ ok o) ↔ (get key wire ≡ nullable_int o)
  unfolding optional_int
  optional_int_iff o = at (get key wire) o
    where
      at : (v : Json) (o : Option ℤ) → (number_at wire key what v ≡ ok o) ↔ (v ≡ nullable_int o)
      at (int i) none = ground arith
      at (int i) (some j) = ground arith
      at v none = ground arith
      at v (some j) = ground arith

  optional_str_list_iff :
      (o : Option (List String))
      → (optional_str_list wire key what ≡ ok o) ↔ (get key wire ≡ nullable_list o)
  unfolding optional_str_list
  optional_str_list_iff o = at (get key wire) o
    where
      at :
          (v : Json) (o : Option (List String))
          → (texts_at wire key what v ≡ ok o) ↔ (v ≡ nullable_list o)
      at (arr vs) none = ground (arith, Option-cases (all_strings vs))
      at (arr vs) (some l) = ground (arith, all_strings_iff vs l, Option-cases (all_strings vs))
      at v none = ground arith
      at v (some l) = ground arith

-- Each field of the snapshot stands in the wire object with exactly the JSON type that it has.
pub record ReadsRun (wire : Fields) (r : RunSnapshot) : Type 0 where
  pub id : get "id" wire ≡ str r.id
  pub id_given : r.id ≢ ""
  pub status : get "status" wire ≡ str r.status
  pub status_given : r.status ≢ ""
  pub approval_policy : get "approval_policy" wire ≡ nullable r.approval_policy
  pub auto_approve : SaysFlag (get "auto_approve" wire) r.auto_approve
  pub allowed_tools : get "allowed_tools_json" wire ≡ nullable_list r.allowed_tools_json
  pub max_steps : get "budget_max_steps" wire ≡ nullable_int r.budget_max_steps
  pub max_wall_seconds : get "budget_max_wall_seconds" wire ≡ nullable_int r.budget_max_wall_seconds
  pub preapproved_tools : get "preapproved_tools" wire ≡ nullable_list r.preapproved_tools
  pub raw : r.raw ≡ wire

reads_run : (wire : Fields) (r : RunSnapshot) → run_from_wire wire ≡ ok r → ReadsRun wire r
unfolding run_from_wire
reads_run wire r e0 =
    let what : String = "run snapshot" in
    let (id, p0, e1) = >>=-eq-ok (required_str wire "id" what) _ e0 in
    let (status, p1, e2) = >>=-eq-ok (required_str wire "status" what) _ e1 in
    let (policy, p2, e3) = >>=-eq-ok (optional_str wire "approval_policy" what) _ e2 in
    let (auto, p3, e4) = >>=-eq-ok (optional_bool wire "auto_approve" what) _ e3 in
    let (tools, p4, e5) = >>=-eq-ok (optional_str_list wire "allowed_tools_json" what) _ e4 in
    let (steps, p5, e6) = >>=-eq-ok (optional_int wire "budget_max_steps" what) _ e5 in
    let (wall, p6, e7) = >>=-eq-ok (optional_int wire "budget_max_wall_seconds" what) _ e6 in
    let (pre, p7, e8) = >>=-eq-ok (optional_str_list wire "preapproved_tools" what) _ e7 in
    let i0 = (required_str_iff wire "id" what id).0 p0 in
    let i1 = (required_str_iff wire "status" what status).0 p1 in
    let i2 = (optional_str_iff wire "approval_policy" what policy).0 p2 in
    let i3 = (optional_bool_iff wire "auto_approve" what auto).0 p3 in
    let i4 = (optional_str_list_iff wire "allowed_tools_json" what tools).0 p4 in
    let i5 = (optional_int_iff wire "budget_max_steps" what steps).0 p5 in
    let i6 = (optional_int_iff wire "budget_max_wall_seconds" what wall).0 p6 in
    let i7 = (optional_str_list_iff wire "preapproved_tools" what pre).0 p7 in
    subst (ReadsRun wire) (ok_inj e8) (record {
      id = i0.0;
      id_given = i0.1;
      status = i1.0;
      status_given = i1.1;
      approval_policy = i2;
      auto_approve = i3;
      allowed_tools = i4;
      max_steps = i5;
      max_wall_seconds = i6;
      preapproved_tools = i7;
      raw = refl;
    })

run_reads : (wire : Fields) (r : RunSnapshot) → ReadsRun wire r → run_from_wire wire ≡ ok r
unfolding run_from_wire
run_reads wire r h =
    let what : String = "run snapshot" in
    rw
      (
        (required_str_iff wire "id" what r.id).1 (h.id, h.id_given),
        (required_str_iff wire "status" what r.status).1 (h.status, h.status_given),
        (optional_str_iff wire "approval_policy" what r.approval_policy).1 h.approval_policy,
        (optional_bool_iff wire "auto_approve" what r.auto_approve).1 h.auto_approve,
        (optional_str_list_iff wire "allowed_tools_json" what r.allowed_tools_json).1
            h.allowed_tools,
        (optional_int_iff wire "budget_max_steps" what r.budget_max_steps).1 h.max_steps,
        (optional_int_iff wire "budget_max_wall_seconds" what r.budget_max_wall_seconds).1
            h.max_wall_seconds,
        (optional_str_list_iff wire "preapproved_tools" what r.preapproved_tools).1
            h.preapproved_tools,
      )
      (ap (λ (raw : Fields). ok (record r { raw = raw })) (sym h.raw))

-- A run snapshot is parsed exactly where each of its fields stands in the wire object with its own
-- JSON type, the identity and the status not empty: nothing is coerced, and nothing else is refused.
pub run_from_wire_iff :
    (wire : Fields) (r : RunSnapshot) → (run_from_wire wire ≡ ok r) ↔ ReadsRun wire r
run_from_wire_iff wire r = (reads_run wire r, run_reads wire r)

record ReadsStep (wire : Fields) (s : StepSnapshot) : Type 0 where
  pub id : get "id" wire ≡ str s.id
  pub id_given : s.id ≢ ""
  pub type : get "type" wire ≡ str s.type
  pub type_given : s.type ≢ ""
  pub title : (o : Option String) × (get "title" wire ≡ nullable o) × (s.title ≡ or_empty_text o)
  pub status : get "status" wire ≡ str s.status
  pub status_given : s.status ≢ ""
  pub known : contains step_statuses s.status ≡ true
  pub requires_approval : SaysFlag (get "requires_approval" wire) s.requires_approval
  pub raw : s.raw ≡ wire

reads_step : (wire : Fields) (s : StepSnapshot) → step_from_wire wire ≡ ok s → ReadsStep wire s
unfolding step_from_wire
reads_step wire s e0 =
    let what : String = "step snapshot" in
    let (status, p0, e1) = >>=-eq-ok (required_str wire "status" what) _ e0 in
    let (_, p1, e2) = >>=-eq-ok (refuse_if (not (contains step_statuses status)) _) _ e1 in
    let (id, p2, e3) = >>=-eq-ok (required_str wire "id" what) _ e2 in
    let (type, p3, e4) = >>=-eq-ok (required_str wire "type" what) _ e3 in
    let (title, p4, e5) = >>=-eq-ok (optional_str wire "title" what) _ e4 in
    let (flag, p5, e6) = >>=-eq-ok (optional_bool wire "requires_approval" what) _ e5 in
    let i0 = (required_str_iff wire "status" what status).0 p0 in
    let i1 = refuse_if-ok (not (contains step_statuses status)) _ p1 in
    let i2 = (required_str_iff wire "id" what id).0 p2 in
    let i3 = (required_str_iff wire "type" what type).0 p3 in
    subst (ReadsStep wire) (ok_inj e6) (record {
      id = i2.0;
      id_given = i2.1;
      type = i3.0;
      type_given = i3.1;
      title = (title, (optional_str_iff wire "title" what title).0 p4, refl);
      status = i0.0;
      status_given = i0.1;
      known = ground (arith, i1);
      requires_approval = (optional_bool_iff wire "requires_approval" what flag).0 p5;
      raw = refl;
    })

step_reads : (wire : Fields) (s : StepSnapshot) → ReadsStep wire s → step_from_wire wire ≡ ok s
unfolding step_from_wire
step_reads wire s h =
    let what : String = "step snapshot" in
    let (o, at, title) = h.title in
    rw
      (
        (required_str_iff wire "status" what s.status).1 (h.status, h.status_given),
        h.known,
        (required_str_iff wire "id" what s.id).1 (h.id, h.id_given),
        (required_str_iff wire "type" what s.type).1 (h.type, h.type_given),
        (optional_str_iff wire "title" what o).1 at,
        (optional_bool_iff wire "requires_approval" what s.requires_approval).1 h.requires_approval,
      )
      (cc (title, h.raw))

-- A step snapshot is parsed exactly where each of its fields stands in the wire object with its own
-- JSON type (an absent title reads as empty), its identity, type and status are not empty, and its
-- status is one of the contract's.
step_from_wire_iff :
    (wire : Fields) (s : StepSnapshot) → (step_from_wire wire ≡ ok s) ↔ ReadsStep wire s
step_from_wire_iff wire s = (reads_step wire s, step_reads wire s)
