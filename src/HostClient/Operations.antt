-- ===== src/HostClient/Operations.antt =====
-- slimx_agent/host_client.py: the store operations and the host's capabilities, one request each.
use slimx_agent.Prelude.{ℕ, String, ◌<>◌, Bool, true, false, Option, none, some, List}
use slimx_agent.Json.{ℤ, pos, Json, null, bool, int, str, obj, Fields, end, field, fields_of, get}
use slimx_agent.Store.{Payload, Patch, unset, put}
use slimx_agent.Outcomes.{Result, ok, raised, each}
use slimx_agent.HostClient.Errors.{
  new_protocol_error, expect_object, expect_object_list, expect_event,
}
use slimx_agent.HostClient.Urls.{segment}
use slimx_agent.HostClient.Profile.{RunProfile, profile_wire, nullable}
use slimx_agent.HostClient.Io.{Io, lift, return, ◌>>=◌, ◌>>◌}
use slimx_agent.HostClient.Transport.{
  HttpClient, HostClient, Reply, not_found, body, prepared, send,
}

abbrev pub invoke_timeout_seconds : ℕ
invoke_timeout_seconds = 3600

abbrev pub payload_json : Option Payload → Json
payload_json none = null
payload_json (some payload) = obj (fields_of payload)

-- A field that is unset adds no key; one that is put adds its value.
abbrev patched : {A : Type 0} → (Option A → Json) → String → Patch A → Fields → Fields
patched encode key unset rest = rest
patched encode key (put value) rest = field key (encode value) rest

abbrev is_put : {A : Type 0} → Patch A → Bool
is_put unset = false
is_put (put _) = true

-- The body of `set_step_state`: an explicit flag says whether a field is replaced.
unfoldable pub state_body : String → Patch String → Patch Payload → Fields
state_body status error output_refs = field "status" (str status) (
    field "error_set" (bool (is_put error)) (
      field "output_refs_set" (bool (is_put output_refs))
        (patched nullable "error" error (patched payload_json "output_refs" output_refs end))))

abbrev pub whole : Reply → Json
whole not_found = null
whole (body v) = v

-- `[_expect_event(item) for item in items]`
unfoldable pub expect_events : List Fields → Result (List Fields)
unfolding each
expect_events events = each (λ fs. expect_event (obj fs)) events

abbrev pub sequence_of : Json → Result ℤ
sequence_of (int (pos n)) = ok (pos n)
sequence_of _ = raised (new_protocol_error "next_sequence is not a non-negative integer")

module _ (http : HttpClient) (client : HostClient) where
  -- `_request`: the keyword arguments are the body, the query and the timeout.
  unfoldable pub request :
      String → String → Option Fields → Option Fields → Option ℕ → Bool → Io http.World Reply
  request method path json params timeout allow_404 =
      send http (prepared client method path json params timeout) allow_404

  abbrev get_path : String → Option Fields → Io http.World Reply
  get_path path params = request "GET" path none params none false

  abbrev post : String → Fields → Option ℕ → Io http.World Reply
  post path json timeout = request "POST" path (some json) none timeout false

  -- `None` for an allowed 404, else an object.
  unfoldable pub maybe_object : String → Reply → Io http.World (Option Fields)
  maybe_object what not_found = return none
  maybe_object what (body v) = do fs ← lift (expect_object v what); return (some fs)

  unfoldable pub get_run : String → Io http.World (Option Fields)
  unfolding request maybe_object
  get_run run_id = do
    id ← lift (segment run_id)
    reply ← request "GET" ("/runs/" <> id) none none none true
    maybe_object "run snapshot" reply

  unfoldable pub get_steps : String → Io http.World (List Fields)
  unfolding request
  get_steps run_id = do
    id ← lift (segment run_id)
    reply ← get_path ("/runs/" <> (id <> "/steps")) none
    lift (expect_object_list (whole reply) "step list")

  unfoldable pub get_step : String → Io http.World (Option Fields)
  unfolding request maybe_object
  get_step step_id = do
    id ← lift (segment step_id)
    reply ← request "GET" ("/steps/" <> id) none none none true
    maybe_object "step snapshot" reply

  unfoldable pub set_run_status : String → String → Io http.World Fields
  unfolding request
  set_run_status run_id status = do
    id ← lift (segment run_id)
    reply ← post ("/runs/" <> (id <> "/status")) (field "status" (str status) end) none
    lift (expect_object (whole reply) "run snapshot")

  unfoldable pub set_step_state :
      String → String → Patch String → Patch Payload → Io http.World Fields
  unfolding request
  set_step_state step_id status error output_refs = do
    id ← lift (segment step_id)
    reply ← post ("/steps/" <> (id <> "/state")) (state_body status error output_refs) none
    lift (expect_object (whole reply) "step snapshot")

  unfoldable pub append_event :
      String → String → Option String → Option Payload → Io http.World Fields
  unfolding request
  append_event run_id type step_id payload = do
    id ← lift (segment run_id)
    reply ←
        post ("/runs/" <> (id <> "/events"))
          (field "type" (str type)
            (field "step_id" (nullable step_id) (field "payload" (payload_json payload) end)))
          none
    lift (expect_event (whole reply))

  unfoldable pub next_sequence : String → Io http.World ℤ
  unfolding request
  next_sequence run_id = do
    id ← lift (segment run_id)
    reply ← get_path ("/runs/" <> (id <> "/events/next-sequence")) none
    answer ← lift (expect_object (whole reply) "next-sequence answer")
    lift (sequence_of (get "next_sequence" answer))

  unfoldable pub events_after : String → ℤ → Io http.World (List Fields)
  unfolding request
  events_after run_id after_sequence = do
    id ← lift (segment run_id)
    reply ← get_path ("/runs/" <> (id <> "/events")) (some (field "after" (int after_sequence) end))
    events ← lift (expect_object_list (whole reply) "event list")
    lift (expect_events events)

  unfoldable pub invoke_step : String → String → RunProfile → Io http.World Fields
  unfolding request
  invoke_step run_id step_id profile = do
    run ← lift (segment run_id)
    step ← lift (segment step_id)
    reply ←
        post ("/runs/" <> (run <> ("/steps/" <> (step <> "/invoke"))))
          (field "profile" (obj (profile_wire profile)) end) (some invoke_timeout_seconds)
    lift (expect_object (whole reply) "invocation outcome")

  unfoldable pub run_end : String → String → RunProfile → Io http.World (Unit {0})
  unfolding request
  run_end run_id status profile = do
    id ← lift (segment run_id)
    post ("/runs/" <> (id <> "/run-end"))
        (field "status" (str status) (field "profile" (obj (profile_wire profile)) end))
        (some invoke_timeout_seconds)
    return tt
