-- ===== src/Tests/Client.antt =====
-- The host client's and the store's theorems at concrete inputs.
use slimx_agent.HostClient.Callbacks.{SendsOnce, operations-Once}
use slimx_agent.Prelude.{
  ◌≡◌, refl, ◌≢◌, ◌↔◌, String, ◌==◌, false, Option, none, some, if◌then◌else◌, lookup, contains,
}
use slimx_agent.Json.{ℤ, pos, str, get}
use slimx_agent.Json.Text.{show_int}
use slimx_agent.Store.{Payload, Patch, put}
use slimx_agent.Outcomes.{ok}
use slimx_agent.HostClient.Attempt.{
  lease_job_id_header, lease_token_header, lease_generation_header,
}
use slimx_agent.HostClient.Urls.{
  segment, quote, escape_bytes, utf8_char, hex_digit, is_unreserved, utf8,
}
use slimx_agent.HostClient.Segments.{AllSafe, unquote, segment-AllSafe}
use slimx_agent.HostClient.Profile.{RunProfile}
use slimx_agent.HostClient.Transport.{for_execution}
use slimx_agent.HostClient.Operations.{
  get_run, get_steps, get_step, set_run_status, set_step_state, append_event, next_sequence,
  events_after, invoke_step, run_end, state_body,
}
use slimx_agent.HostClient.Wire.{error_of, refs_of, state_body_roundtrip, for_execution_headers}
use slimx_agent.HttpStore.Snapshots.{RunSnapshot, run_from_wire}
use slimx_agent.HttpStore.Strict.{ReadsRun, run_from_wire_iff}
use slimx_agent.Tests.Remote.{scripted, client, attempt, run_wire}

abbrev run_read : RunSnapshot
run_read = record {
  id = "r1";
  status = "planned";
  approval_policy = some "auto_complete";
  auto_approve = false;
  allowed_tools_json = none;
  budget_max_steps = some (pos 5);
  budget_max_wall_seconds = none;
  preapproved_tools = none;
  raw = run_wire;
}

run_from_wire_iff_example : (run_from_wire run_wire ≡ ok run_read) ↔ ReadsRun run_wire run_read
run_from_wire_iff_example = run_from_wire_iff run_wire run_read

operations-Once_example :
    ((id : String) → SendsOnce scripted client (get_run scripted client id))
    × ((id : String) → SendsOnce scripted client (get_steps scripted client id))
    × ((id : String) → SendsOnce scripted client (get_step scripted client id))
    × ((id status : String) → SendsOnce scripted client (set_run_status scripted client id status))
    × ((id status : String) (error : Patch String) (refs : Patch Payload)
        → SendsOnce scripted client (set_step_state scripted client id status error refs))
    × ((id type : String) (step_id : Option String) (payload : Option Payload)
        → SendsOnce scripted client (append_event scripted client id type step_id payload))
    × ((id : String) → SendsOnce scripted client (next_sequence scripted client id))
    × ((id : String) (after : ℤ)
        → SendsOnce scripted client (events_after scripted client id after))
    × ((id step_id : String) (profile : RunProfile)
        → SendsOnce scripted client (invoke_step scripted client id step_id profile))
    × ((id status : String) (profile : RunProfile)
        → SendsOnce scripted client (run_end scripted client id status profile))
operations-Once_example = operations-Once scripted client

abbrev quoted : String
quoted = "a%20b%2F%E2%80%A6"

spaced : segment "a b/…" ≡ ok quoted
unfolding segment quote escape_bytes utf8_char hex_digit is_unreserved contains
spaced = refl

segment-AllSafe_example :
    AllSafe quoted
    × (quoted ≢ "")
    × (quoted ≢ ".")
    × (quoted ≢ "..")
    × (unquote quoted ≡ utf8 "a b/…")
segment-AllSafe_example = segment-AllSafe "a b/…" quoted spaced

state_body_roundtrip_example :
    (get "status" (state_body "failed" (put (some "boom")) (put none)) ≡ str "failed")
    × (error_of (state_body "failed" (put (some "boom")) (put none)) ≡ put (some "boom"))
    × (refs_of (state_body "failed" (put (some "boom")) (put none)) ≡ put none)
state_body_roundtrip_example = state_body_roundtrip "failed" (put (some "boom")) (put none)

for_execution_headers_example :
    lookup "X-SlimX-Agent-Lease-Token" (for_execution client attempt).request_headers ≡ (
      if lease_generation_header == "X-SlimX-Agent-Lease-Token"
      then some (show_int attempt.generation)
      else if lease_token_header == "X-SlimX-Agent-Lease-Token"
      then some attempt.token
      else if lease_job_id_header == "X-SlimX-Agent-Lease-Token"
      then some attempt.job_id
      else lookup "X-SlimX-Agent-Lease-Token" client.request_headers)
for_execution_headers_example = for_execution_headers client attempt "X-SlimX-Agent-Lease-Token"
