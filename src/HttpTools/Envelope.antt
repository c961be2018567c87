-- ===== src/HttpTools/Envelope.antt =====
-- slimx_agent/http_tools.py: what an outcome envelope, and the lack of one, make of a step.
use slimx_agent.Prelude.{
  String, ◌≡◌, ◌≢◌, refl, sym, subst, ◌∙◌, ◌==◌, strip, if◌then◌else◌, ◌↔◌, ◌⊎◌, inl, inr, true,
  false, Option, none, some, [], ◌∷◌, eq_iff, ap, contains, Bool-cases, arith,
}
use slimx_agent.Json.{
  Json, null, bool, int, float, str, arr, obj, Fields, end, field, get, entries, fields_of,
}
use slimx_agent.Store.{Payload}
use slimx_agent.Outcomes.{
  Result, ok, raised, step_outcome_unknown, host_error, host_unavailable, host_protocol_error,
}
use slimx_agent.HttpTools.{
  message, by_outcome, unrecognized, outcome_of, envelope, host_failure, refs_of, unobserved,
}
use slimx_agent.HttpTools.Meaning.{
  IsKnown, IsUnclear, Means, Says, refs_json, settled, unclear, lost, broken, completed, skipped,
  readied, failed,
}

unknown_branch :
    (step_id : String) (result : Fields) (outcome : String)
    → contains ("completed" ∷ "skipped" ∷ "prepared" ∷ "failed" ∷ []) outcome ≡ false
    → by_outcome step_id result (str outcome) ≡ raised (unrecognized step_id)
unfolding by_outcome contains
unknown_branch step_id result outcome other = ground (
  arith,
  eq_iff outcome "completed",
  eq_iff outcome "skipped",
  eq_iff outcome "prepared",
  eq_iff outcome "failed",
  eq_iff "completed" outcome,
  eq_iff "skipped" outcome,
  eq_iff "prepared" outcome,
  eq_iff "failed" outcome,
)

fields_of-entries : (fs : Fields) → fields_of (entries fs) ≡ fs
fields_of-entries end = refl
fields_of-entries (field k v fs) = ap (λ (rest : Fields). field k v rest) (fields_of-entries fs)

entries-fields_of : (l : Payload) → entries (fields_of l) ≡ l
entries-fields_of [] = refl
entries-fields_of ((k, v) ∷ l) = ap (λ (rest : Payload). (k, v) ∷ rest) (entries-fields_of l)

refs_of_iff :
    (step_id : String) (v : Json) (refs : Option Payload)
    → (refs_of step_id v ≡ ok refs) ↔ (v ≡ refs_json refs)
unfolding refs_of
refs_of_iff step_id (obj fs) (some l) = ground (arith, fields_of-entries fs, entries-fields_of l)
refs_of_iff step_id (obj fs) none = ground arith
refs_of_iff step_id v (some l) = ground arith
refs_of_iff step_id v none = ground arith

message-Says : (v : Json) (default : String) → Says v default (message v default)
unfolding message
message-Says (str t) default = record {
  given = λ s e h. given s (cc e) h;
  missing = λ h. missing (h t refl);
}
  where
    given : (s : String) → t ≡ s → strip s ≢ "" → (if strip t == "" then default else t) ≡ s
    given s e h = elim (Bool-cases (strip t == "")) [
      | inl blank ↦ absurd (h (ap strip (sym e) ∙ (eq_iff (strip t) "").0 blank))
      | inr says ↦ rw says e
    ]

    missing : strip t ≡ "" → (if strip t == "" then default else t) ≡ default
    missing blank = rw ((eq_iff (strip t) "").1 blank) refl
message-Says null default = record { given = λ s e h. absurd (cc e); missing = λ h. refl }
message-Says (bool b) default = record { given = λ s e h. absurd (cc e); missing = λ h. refl }
message-Says (int i) default = record { given = λ s e h. absurd (cc e); missing = λ h. refl }
message-Says (float t) default = record { given = λ s e h. absurd (cc e); missing = λ h. refl }
message-Says (arr vs) default = record { given = λ s e h. absurd (cc e); missing = λ h. refl }
message-Says (obj fs) default = record { given = λ s e h. absurd (cc e); missing = λ h. refl }

refs_cases :
    (step_id : String) (v : Json)
    → ((refs : Option Payload) × (refs_of step_id v ≡ ok refs))
      ⊎ ((text : String) × (refs_of step_id v ≡ raised (step_outcome_unknown text none)))
unfolding refs_of
refs_cases step_id null = inl (none, refl)
refs_cases step_id (obj fs) = inl (some (entries fs), refl)
refs_cases step_id v = inr (_, refl)

only_four :
    (outcome : String)
    → contains ("completed" ∷ "skipped" ∷ "prepared" ∷ "failed" ∷ []) outcome ≡ true
    → (outcome == "completed") ≡ false
    → (outcome == "skipped") ≡ false
    → (outcome == "prepared") ≡ false
    → (outcome == "failed") ≡ false
    → ⊥
unfolding contains
only_four outcome known a b c d = ground (
  arith,
  known,
  eq_iff outcome "completed",
  eq_iff outcome "skipped",
  eq_iff outcome "prepared",
  eq_iff outcome "failed",
  eq_iff "completed" outcome,
  eq_iff "skipped" outcome,
  eq_iff "prepared" outcome,
  eq_iff "failed" outcome,
)

module _ (result : Fields) where
  no_text : (v : Json) → get "outcome" result ≡ v → ((t : String) → v ≢ str t) → IsUnclear result
  no_text v says other = record {
    unclear = inl (λ (k : IsKnown result). other k.outcome (sym says ∙ k.says));
  }

module _ (step_id : String) (result : Fields) where
  -- References that are neither: they are read as nothing at all.
  bad_refs :
      (text : String)
      → refs_of step_id (get "output_refs" result) ≡ raised (step_outcome_unknown text none)
      → get "outcome" result ≡ str "completed"
      → Means (ok result) (refs_of step_id (get "output_refs" result))
  bad_refs text e says =
      unclear result text refl (record { unclear = inr (says, λ refs h. never refs h) }) e
    where
      never : (refs : Option Payload) → get "output_refs" result ≡ refs_json refs → ⊥
      never refs h = cc (sym e ∙ (refs_of_iff step_id (get "output_refs" result) refs).1 h)

  completing :
      get "outcome" result ≡ str "completed"
      → Means (ok result) (refs_of step_id (get "output_refs" result))
  completing says = elim (refs_cases step_id (get "output_refs" result)) [
    | inl (refs, e) ↦
        settled result refl
          (completed refs says ((refs_of_iff step_id (get "output_refs" result) refs).0 e) e)
    | inr (text, e) ↦ bad_refs text e says
  ]

  known_outcome :
      (outcome : String)
      → get "outcome" result ≡ str outcome
      → contains ("completed" ∷ "skipped" ∷ "prepared" ∷ "failed" ∷ []) outcome ≡ true
      → Means (ok result) (by_outcome step_id result (str outcome))
  unfolding by_outcome
  known_outcome outcome says known = elim (Bool-cases (outcome == "completed")) [
    | inl is ↦ rw is (completing (named "completed" is))
    | inr not_completed ↦ elim (Bool-cases (outcome == "skipped")) [
      | inl is ↦
          settled result refl
            (skipped _ (named "skipped" is) (message-Says _ _) (rw (not_completed, is) refl))
      | inr not_skipped ↦ elim (Bool-cases (outcome == "prepared")) [
        | inl is ↦ settled result refl (
            readied _ (named "prepared" is) (message-Says _ _)
              (rw (not_completed, not_skipped, is) refl))
        | inr not_prepared ↦ elim (Bool-cases (outcome == "failed")) [
          | inl is ↦ settled result refl (
              failed _ (named "failed" is) (message-Says _ _)
                (rw (not_completed, not_skipped, not_prepared, is) refl))
          | inr not_failed ↦
              absurd (only_four outcome known not_completed not_skipped not_prepared not_failed)
        ]
      ]
    ]
  ]
    where
      named : (t : String) → (outcome == t) ≡ true → get "outcome" result ≡ str t
      named t is = says ∙ ap (λ (u : String). str u) ((eq_iff outcome t).0 is)

  by_outcome-Means :
      (v : Json) → get "outcome" result ≡ v → Means (ok result) (by_outcome step_id result v)
  unfolding by_outcome
  by_outcome-Means (str outcome) says =
      elim (Bool-cases (contains ("completed" ∷ "skipped" ∷ "prepared" ∷ "failed" ∷ []) outcome)) [
        | inl known ↦ known_outcome outcome says known
        | inr other ↦
            unclear result _ refl (record { unclear = inl (unknown outcome says other) })
              (unknown_branch step_id result outcome other)
      ]
    where
      unknown :
          (outcome : String)
          → get "outcome" result ≡ str outcome
          → contains ("completed" ∷ "skipped" ∷ "prepared" ∷ "failed" ∷ []) outcome ≡ false
          → ¬ IsKnown result
      unknown outcome says other k =
          let same : k.outcome ≡ outcome = cc (k.says, says) in
          absurd (
            cc (
              other,
              subst (λ t. contains ("completed" ∷ "skipped" ∷ "prepared" ∷ "failed" ∷ []) t ≡ true)
                  same k.known,
            ))
  by_outcome-Means null says = unclear result _ refl (no_text result null says λ t e. cc e) refl
  by_outcome-Means (bool b) says =
      unclear result _ refl (no_text result (bool b) says λ t e. cc e) refl
  by_outcome-Means (int b) says =
      unclear result _ refl (no_text result (int b) says λ t e. cc e) refl
  by_outcome-Means (float b) says =
      unclear result _ refl (no_text result (float b) says λ t e. cc e) refl
  by_outcome-Means (arr b) says =
      unclear result _ refl (no_text result (arr b) says λ t e. cc e) refl
  by_outcome-Means (obj b) says =
      unclear result _ refl (no_text result (obj b) says λ t e. cc e) refl

-- What the handler makes of any answer of the callback is what that answer means: an envelope that
-- completes the step gives its references, one that skips, prepares or fails it raises that with the
-- envelope's text or the default for it, one that is unclear raises an unknown outcome without a
-- cause, a host error raises an unknown outcome with that failure as its cause, and any other
-- exception goes through.
pub envelope-Means :
    (step_id : String) (answer : Result Fields) → Means answer (envelope step_id answer)
unfolding envelope outcome_of unobserved host_failure
envelope-Means step_id (ok result) = by_outcome-Means step_id result (get "outcome" result) refl
envelope-Means step_id (raised (host_error f)) = lost (host_error f) f _ refl (inl refl) refl
envelope-Means step_id (raised (host_unavailable f)) =
    lost (host_unavailable f) f _ refl (inr (inl refl)) refl
envelope-Means step_id (raised (host_protocol_error f)) =
    lost (host_protocol_error f) f _ refl (inr (inr refl)) refl
envelope-Means step_id (raised e) = broken e refl (λ h. h) refl
