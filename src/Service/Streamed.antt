-- ===== src/Service/Streamed.antt =====
-- slimx_agent/service.py: the two execute endpoints beside each other.
use slimx_agent.Prelude.{ℕ, String, ◌≡◌, refl, ap, ◌∙◌, Option, none, some, List}
use slimx_agent.Store.{Run, Event}
use slimx_agent.Outcomes.{
  Raise, Result, ok, raised, host_error, host_unavailable, host_protocol_error, unknown_step_status,
  running_step_not_permitted, step_execution_error, step_not_applicable, step_action_prepared,
  step_outcome_unknown, value_error, other,
}
use slimx_agent.Tools.{ToolRegistry}
use slimx_agent.Engine.Host.{Handler}
use slimx_agent.HostClient.Attempt.{ExecutionAttempt}
use slimx_agent.HostClient.Profile.{RunProfile}
use slimx_agent.HostClient.Transport.{HttpClient, HostClient}
use slimx_agent.Service.Auth.{
  HttpException, Served, answered, refused, failed, require_internal_token, execution_attempt,
}
use slimx_agent.Service.Edge.{edge_error}
use slimx_agent.Service.Execute.{
  caught, drive_run, run_found, with_attempt, admitted, execute_run, not_found,
}
use slimx_agent.Service.Client.{Clients, client}
use slimx_agent.Service.App.{Posted, App, beside, with_bound_client}
use slimx_agent.Service.Stream.{
  host_refusal, stream_run, stream_found, stream_attempt, stream_admitted, execute_run_stream,
}

-- What the stream refuses the plain endpoint refuses as well, in the same world; where the plain
-- endpoint answers, the stream does.
pub record Agrees {W F : Type 0} (streamed : Served (List String) × W) (plain : Served F × W)
    : Type 0 where
  pub refusal : (x : HttpException) (w : W) → streamed ≡ (refused x, w) → plain ≡ (refused x, w)
  pub answer :
      (f : F) → plain.0 ≡ answered f → (frames : List String) × (streamed.0 ≡ answered frames)

module _ {W F : Type 0} (w : W) where
  Agrees-refused : (x : HttpException) → Agrees {F = F} (refused x, w) (refused x, w)
  Agrees-refused x = record { refusal = λ y w' e. again y w' e; answer = λ f e. absurd (never f e) }
    where
      again :
          (y : HttpException) (w' : W)
          → ◌≡◌ {A = Served (List String) × W} (refused x, w) (refused y, w')
          → ◌≡◌ {A = Served F × W} (refused x, w) (refused y, w')
      again y w' e = cc

      never : (f : F) → ◌≡◌ {A = Served F} (refused x) (answered f) → ⊥
      never f e = cc

  Agrees-failed :
      (e : Raise) (plain : Served F)
      → ((f : F) → plain ≡ answered f → ⊥)
      → Agrees {F = F} (failed e, w) (plain, w)
  Agrees-failed e plain never = record {
    refusal = λ y w' same. absurd (no y w' same);
    answer = λ f same. absurd (never f same);
  }
    where
      no :
          (y : HttpException) (w' : W)
          → ◌≡◌ {A = Served (List String) × W} (failed e, w) (refused y, w')
          → ⊥
      no y w' same = cc

  Agrees-answered :
      (frames : List String) (plain : Served F × W) → Agrees {F = F} (answered frames, w) plain
  Agrees-answered frames plain = record {
    refusal = λ y w' same. absurd (no y w' same);
    answer = λ f same. (frames, refl);
  }
    where
      no :
          (y : HttpException) (w' : W)
          → ◌≡◌ {A = Served (List String) × W} (answered frames, w) (refused y, w')
          → ⊥
      no y w' same = cc

caught-unanswered : {F : Type 0} (e : Raise) (f : F) → caught e ≡ answered f → ⊥
unfolding caught
caught-unanswered {F} e f same = never (edge_error e) same
  where
    never :
        (edge : Option HttpException)
        → ◌≡◌ {A = Served F} (elim edge [ some x ↦ refused x | none ↦ failed e ]) (answered f)
        → ⊥
    never (some x) same = cc
    never none same = cc

Agrees-caught : {W F : Type 0} (w : W) (e : Raise) → Agrees {F = F} (failed e, w) (caught e, w)
Agrees-caught w e = Agrees-failed w e (caught e) (caught-unanswered e)

Agrees-raised :
    {W F : Type 0} (w : W) (e : Raise) → Agrees {F = F} (host_refusal e, w) (caught e, w)
unfolding host_refusal caught edge_error
Agrees-raised w (host_error f) = Agrees-refused w _
Agrees-raised w (host_unavailable f) = Agrees-refused w _
Agrees-raised w (host_protocol_error f) = Agrees-refused w _
Agrees-raised w (unknown_step_status a b) = Agrees-caught w (unknown_step_status a b)
Agrees-raised w (running_step_not_permitted a b) = Agrees-caught w (running_step_not_permitted a b)
Agrees-raised w (step_execution_error t) = Agrees-caught w (step_execution_error t)
Agrees-raised w (step_not_applicable t) = Agrees-caught w (step_not_applicable t)
Agrees-raised w (step_action_prepared t) = Agrees-caught w (step_action_prepared t)
Agrees-raised w (step_outcome_unknown t c) = Agrees-caught w (step_outcome_unknown t c)
Agrees-raised w (value_error t) = Agrees-caught w (value_error t)
Agrees-raised w (other n t) = Agrees-caught w (other n t)

module _ {W F : Type 0} where
  beside-Agrees :
      (clients : Clients) (streamed : Served (List String) × W) (plain : Served F × W)
      → Agrees streamed plain
      → Agrees (beside clients streamed) (beside clients plain)
  beside-Agrees clients (s, w) plain agrees = record {
    refusal = λ x app e. again x app e;
    answer = agrees.answer;
  }
    where
      again :
          (x : HttpException) (app : App W)
          → beside clients (s, w) ≡ (refused x, app)
          → beside clients plain ≡ (refused x, app)
      again x app e =
          let is_x : s ≡ refused x = ap (λ (o : Served (List String) × App W). o.0) e in
          let same = agrees.refusal x w (ap (λ (r : Served (List String)). (r, w)) is_x) in
          ap (λ (o : Served F × W). beside clients o) same
          ∙ pair (ap (λ (o : Served (List String) × App W). o.1) e)
        where
          pair :
              record { clients = clients; world = w } ≡ app
              → ◌≡◌ {A = Served F × App W}
                  (refused x, record { clients = clients; world = w })
                  (refused x, app)
          pair same_app = ap (λ (a : App W). (refused x, a)) same_app

  bound-Agrees :
      (attempt : ExecutionAttempt) (streaming : HostClient → W → Served (List String) × W)
      (plainly : HostClient → W → Served F × W)
      → ((c : HostClient) (w : W) → Agrees (streaming c w) (plainly c w))
      → (outcome : Served ℕ × Clients) (w : W)
      → Agrees
          (with_bound_client attempt outcome streaming w)
          (with_bound_client attempt outcome plainly w)
  unfolding with_bound_client
  bound-Agrees attempt streaming plainly agree (answered base, clients) w =
      beside-Agrees _ _ _ (agree _ w)
  bound-Agrees attempt streaming plainly agree (refused x, clients) w = Agrees-refused _ x
  bound-Agrees attempt streaming plainly agree (failed e, clients) w =
      Agrees-failed _ e (failed e) (λ f same. cc same)

module _ (http : HttpClient) (clock : http.World → ℕ × http.World) (dumps : Event → String)
    (posted : Posted) (fuel : ℕ) where
  run-Agrees :
      (callback_client : HostClient) (profile : RunProfile) (run : Run)
      (built : Result (ToolRegistry (Handler http.World))) (w : http.World)
      → Agrees
          (stream_run http clock dumps callback_client profile run fuel built w)
          (drive_run http clock callback_client profile run fuel built w)
  unfolding stream_run drive_run
  run-Agrees callback_client profile run (raised e) w =
      Agrees-failed w e (failed e) (λ f same. cc same)
  run-Agrees callback_client profile run (ok registry) w = Agrees-answered _ _ _

  found-Agrees :
      (callback_client : HostClient) (profile : RunProfile) (found : Result (Option Run))
      (w : http.World)
      → Agrees
          (stream_found http clock dumps callback_client profile fuel found w)
          (run_found http clock callback_client profile fuel found w)
  unfolding stream_found run_found
  found-Agrees callback_client profile (raised e) w = Agrees-raised w e
  found-Agrees callback_client profile (ok none) w = Agrees-refused w not_found
  found-Agrees callback_client profile (ok (some run)) w =
      run-Agrees callback_client profile run _ w

  attempt-Agrees :
      (attempt : Served ExecutionAttempt) (app : App http.World)
      → Agrees
          (stream_attempt http clock dumps posted fuel attempt app)
          (with_attempt http clock posted fuel attempt app)
  unfolding stream_attempt with_attempt
  attempt-Agrees (refused x) app = Agrees-refused app x
  attempt-Agrees (failed e) app = Agrees-failed app e (failed e) (λ f same. cc same)
  attempt-Agrees (answered attempt) app =
      bound-Agrees attempt _ _ (λ c w. found-Agrees c _ _ _)
        (client posted.host_url posted.token app.clients) app.world

  token-Agrees :
      (token : Served (Unit {0})) (app : App http.World)
      → Agrees
          (stream_admitted http clock dumps posted fuel token app)
          (admitted http clock posted fuel token app)
  unfolding stream_admitted admitted
  token-Agrees (refused x) app = Agrees-refused app x
  token-Agrees (failed e) app = Agrees-failed app e (failed e) (λ f same. cc same)
  token-Agrees (answered _) app = attempt-Agrees (execution_attempt posted.body) app

  -- For the same request to the same application, what the streaming endpoint refuses the plain one
  -- refuses with the same status and detail, having left the same clients and made the same requests
  -- of the host; and where the plain endpoint answers, the streaming one streams.
  pub execute_run_stream-Agrees :
      (app : App http.World)
      → Agrees
          (execute_run_stream http clock dumps posted fuel app)
          (execute_run http clock posted fuel app)
  unfolding execute_run_stream execute_run
  execute_run_stream-Agrees app =
      token-Agrees (require_internal_token posted.token posted.authorization) app
