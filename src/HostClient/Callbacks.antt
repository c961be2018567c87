-- ===== src/HostClient/Callbacks.antt =====
-- slimx_agent/host_client.py: every operation of the client sends at most one request.
use slimx_agent.HostClient.Transport.{
  send, some_headers, Request, HttpClient, HostClient, prepared, Reply, not_found, body,
}
use slimx_agent.HostClient.Io.{lift, Io}
use slimx_agent.Prelude.{[], ◌∷◌, String, ◌≡◌, refl, Bool, true, false, Option, none, some, List}
use slimx_agent.HostClient.Operations.{
  whole, sequence_of, get_run, get_steps, get_step, set_run_status, set_step_state, append_event,
  next_sequence, events_after, invoke_step, run_end, maybe_object, expect_events,
}
use slimx_agent.HostClient.Errors.{
  sequenced, listed, expect_object, expect_object_list, expect_event, all_objects,
}
use slimx_agent.Json.{ℤ, pos, negsuc, Json, int, arr, obj, Fields, get}
use slimx_agent.Store.{Payload, Patch}
use slimx_agent.Outcomes.{Result, ok, raised, ◌>>=◌, each}
use slimx_agent.HostClient.Urls.{segment}
use slimx_agent.HostClient.Profile.{RunProfile}
use slimx_agent.HostClient.Io
use slimx_agent.HostClient.Once.{
  ok-Host, refused-Host, raised-Host, RaisesHost, RaisesHost-if, Quiet, Once, Quiet-lift,
  Quiet-bind, Quiet-Once, Once-bind, send-Once,
}

segment-Host : (id : String) → RaisesHost (segment id)
unfolding segment
segment-Host id = RaisesHost-if _ (refused-Host _) (ok-Host _)

pub expect_object-Host : (v : Json) (what : String) → RaisesHost (expect_object v what)
unfolding expect_object
expect_object-Host (obj fs) what = ok-Host fs
expect_object-Host v what = refused-Host _

listed-Host : (o : Option (List Fields)) (what : String) → RaisesHost (listed o what)
listed-Host none what = refused-Host _
listed-Host (some l) what = ok-Host l

expect_object_list-Host : (v : Json) (what : String) → RaisesHost (expect_object_list v what)
unfolding expect_object_list
expect_object_list-Host (arr vs) what = listed-Host (all_objects vs) what
expect_object_list-Host v what = refused-Host _

pub RaisesHost-bind :
    {A B : Type 0} (r : Result A) (f : A → Result B)
    → RaisesHost r
    → ((a : A) → RaisesHost (f a))
    → RaisesHost (r >>= f)
RaisesHost-bind (ok a) f h k = k a
RaisesHost-bind (raised e) f h k = raised-Host e (h.error e refl)

pub each-Host :
    {A B : Type 0} (f : A → Result B)
    → ((a : A) → RaisesHost (f a))
    → (xs : List A) → RaisesHost (each f xs)
unfolding each
each-Host f h [] = ok-Host []
each-Host f h (x ∷ xs) =
    RaisesHost-bind (f x) _ (h x)
      λ y. RaisesHost-bind (each f xs) _ (each-Host f h xs) λ ys. ok-Host _

sequenced-Host : (v : Json) (fs : Fields) → RaisesHost (sequenced v fs)
sequenced-Host (int i) fs = ok-Host fs
sequenced-Host v fs = refused-Host _

expect_event-Host : (v : Json) → RaisesHost (expect_event v)
unfolding expect_event
expect_event-Host v =
    RaisesHost-bind (expect_object v "event") _ (expect_object-Host v "event")
      λ fs. sequenced-Host (get "sequence" fs) fs

expect_events-Host : (l : List Fields) → RaisesHost (expect_events l)
unfolding expect_events
expect_events-Host l = each-Host (λ fs. expect_event (obj fs)) (λ fs. expect_event-Host (obj fs)) l

sequence_of-Host : (v : Json) → RaisesHost (sequence_of v)
sequence_of-Host (int (pos n)) = ok-Host _
sequence_of-Host (int (negsuc n)) = refused-Host _
sequence_of-Host v = refused-Host _

module _ (http : HttpClient) (client : HostClient) where
  abbrev pub SendsOnce : {A : Type 0} → (http.World → Result A × http.World) → Type 0
  SendsOnce m = Once http client.request_headers m

  maybe_object-Quiet :
      (what : String) (reply : Reply)
      → Quiet http client.request_headers (maybe_object http client what reply)
  unfolding maybe_object
  maybe_object-Quiet what not_found = Quiet-lift _ _ (ok none) (ok-Host _)
  maybe_object-Quiet what (body v) =
      Quiet-bind _ _ _ _ (Quiet-lift _ _ _ (expect_object-Host v what))
        λ fs. Quiet-lift _ _ (ok (some fs)) (ok-Host _)

  -- An identity's segment, one request, and a reading of the reply.
  call-Once :
      {A : Type 0} (id : String) (r : String → Request) (allow_404 : Bool)
      (read : Reply → Io http.World A)
      → ((path : String) → (r path).headers ≡ some_headers client.request_headers)
      → ((reply : Reply) → Quiet http client.request_headers (read reply))
      → SendsOnce
          (Io.◌>>=◌ (lift (segment id)) (λ path. Io.◌>>=◌ (send http (r path) allow_404) read))
  call-Once id r allow_404 read bound quiet =
      Quiet-Once _ _ _ _ (Quiet-lift _ _ _ (segment-Host id))
        λ path. Once-bind _ _ _ _ (send-Once _ _ _ allow_404 (bound path)) quiet

  -- Every operation of the client sends one request, which carries the client's headers and alone
  -- changes the world, or is refused by a host error before any request. It never sends a second
  -- one, and raises only host errors and what the HTTP client raised.
  pub operations-Once :
      ((id : String) → SendsOnce (get_run http client id))
      × ((id : String) → SendsOnce (get_steps http client id))
      × ((id : String) → SendsOnce (get_step http client id))
      × ((id status : String) → SendsOnce (set_run_status http client id status))
      × ((id status : String) (error : Patch String) (refs : Patch Payload)
          → SendsOnce (set_step_state http client id status error refs))
      × ((id type : String) (step_id : Option String) (payload : Option Payload)
          → SendsOnce (append_event http client id type step_id payload))
      × ((id : String) → SendsOnce (next_sequence http client id))
      × ((id : String) (after : ℤ) → SendsOnce (events_after http client id after))
      × ((id step_id : String) (profile : RunProfile)
          → SendsOnce (invoke_step http client id step_id profile))
      × ((id status : String) (profile : RunProfile)
          → SendsOnce (run_end http client id status profile))
  unfolding get_run get_steps get_step set_run_status set_step_state append_event next_sequence
      events_after invoke_step run_end prepared
  operations-Once = (
    λ id. call-Once id _ true _ (λ _. refl) (maybe_object-Quiet "run snapshot"),
    λ id.
        call-Once id _ false _ (λ _. refl)
          (λ reply. Quiet-lift _ _ _ (expect_object_list-Host (whole reply) "step list")),
    λ id. call-Once id _ true _ (λ _. refl) (maybe_object-Quiet "step snapshot"),
    λ id status.
        call-Once id _ false _ (λ _. refl)
          (λ reply. Quiet-lift _ _ _ (expect_object-Host (whole reply) "run snapshot")),
    λ id status error refs.
        call-Once id _ false _ (λ _. refl)
          (λ reply. Quiet-lift _ _ _ (expect_object-Host (whole reply) "step snapshot")),
    λ id type step_id payload.
        call-Once id _ false _ (λ _. refl)
          (λ reply. Quiet-lift _ _ _ (expect_event-Host (whole reply))),
    λ id.
        call-Once id _ false _ (λ _. refl)
          (λ reply.
            Quiet-bind _ _ _ _
              (Quiet-lift _ _ _ (expect_object-Host (whole reply) "next-sequence answer"))
              λ fs. Quiet-lift _ _ _ (sequence_of-Host (get "next_sequence" fs))),
    λ id after.
        call-Once id _ false _ (λ _. refl)
          (λ reply.
            Quiet-bind _ _ _ _
              (Quiet-lift _ _ _ (expect_object_list-Host (whole reply) "event list"))
              λ l. Quiet-lift _ _ _ (expect_events-Host l)),
    λ id step_id profile. Quiet-Once _ _ _ _ (Quiet-lift _ _ _ (segment-Host id)) λ run.
        call-Once step_id _ false _ (λ _. refl)
          (λ reply. Quiet-lift _ _ _ (expect_object-Host (whole reply) "invocation outcome")),
    λ id status profile.
        call-Once id _ false _ (λ _. refl) (λ reply. Quiet-lift _ _ (ok tt) (ok-Host tt)),
  )
