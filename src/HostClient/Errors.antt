-- ===== src/HostClient/Errors.antt =====
-- slimx_agent/host_client.py: the bounded details and the three host errors; the `_expect` tests of
-- an answer's shape, which raise them.
use slimx_agent.Prelude.{
  ℕ, suc, zero, String, ◌<>◌, Option, none, some, List, [], ◌∷◌, if◌then◌else◌, leb, clip,
}
use Prim.Native.String.{count}
use slimx_agent.Json.{Json, int, obj, arr, Items, nil, cons, Fields, get}
use slimx_agent.Outcomes.{
  HostFailure, Raise, host_error, host_unavailable, host_protocol_error, Result, ok, raised, ◌>>=◌,
}

abbrev pub max_detail_chars : ℕ
max_detail_chars = 500

-- `text[:-1]`
drop_last : String → String
drop_last String.[] = ""
drop_last (String.◌∷◌ c s) = elim s [ String.[] ↦ "" | String.◌∷◌ _ _ ↦ String.◌∷◌ c (drop_last s) ]

-- `text[: limit - 1]`; at limit 0 the index is -1.
clip_before : ℕ → String → String
unfolding drop_last
clip_before zero text = drop_last text
clip_before (suc n) text = clip n text

unfoldable pub bounded_detail : String → ℕ → String
unfolding clip_before
bounded_detail text limit = if leb (count text) limit then text else clip_before limit text <> "…"

unfoldable pub failure : ℕ → String → HostFailure
failure status_code detail = record {
  status_code = status_code;
  detail = bounded_detail detail max_detail_chars;
}

-- `HostError(status_code, detail)`
unfoldable pub new_host_error : ℕ → String → Raise
unfolding failure
new_host_error status_code detail = host_error (failure status_code detail)

-- `HostUnavailable(detail)`
unfoldable pub new_host_unavailable : String → Raise
unfolding failure
new_host_unavailable detail = host_unavailable (failure 503 ("host unavailable: " <> detail))

-- `HostProtocolError(detail)`
unfoldable pub new_protocol_error : String → Raise
unfolding failure
new_protocol_error detail =
    host_protocol_error (failure 502 ("malformed host response: " <> detail))

unfoldable pub expect_object : Json → String → Result Fields
expect_object (obj fs) what = ok fs
expect_object _ what = raised (new_protocol_error ("the " <> (what <> " is not a JSON object")))

-- The objects of an array that holds nothing else.
unfoldable pub all_objects : Items → Option (List Fields)
all_objects nil = some []
all_objects (cons (obj fs) vs) = elim (all_objects vs) [ none ↦ none | some l ↦ some (fs ∷ l) ]
all_objects (cons _ vs) = none

abbrev pub listed : Option (List Fields) → String → Result (List Fields)
listed (some l) what = ok l
listed none what =
    raised (new_protocol_error ("the " <> (what <> " is not a JSON array of objects")))

unfoldable pub expect_object_list : Json → String → Result (List Fields)
unfolding all_objects
expect_object_list (arr vs) what = listed (all_objects vs) what
expect_object_list _ what = listed none what

abbrev pub sequenced : Json → Fields → Result Fields
sequenced (int _) event = ok event
sequenced _ event = raised (new_protocol_error "an event has no integer sequence")

unfoldable pub expect_event : Json → Result Fields
unfolding expect_object
expect_event value = do event ← expect_object value "event"; sequenced (get "sequence" event) event
