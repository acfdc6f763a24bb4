-- ===== src/Gateway/Replays.antt =====
-- Repeated deliveries of one webhook to services/voice-gateway/exotel_routes.py.
use ai_calling_agent.Prelude.{
  ℕ, ◌≡◌, refl, String, Bool, true, false, Option, none, some, ◌⊎◌, inl, inr, arith, ap, ◌∙◌,
  Bool-cases,
}
use ai_calling_agent.Prelude.Text.{lower}
use ai_calling_agent.Jobs.Schema.{EventCreateRequest, is_valid_create}
use ai_calling_agent.Jobs.Create.{new_job, job_fits, insert_job, create_event}
use ai_calling_agent.Jobs.Events.{event_id}
use ai_calling_agent.Jobs.Idempotence.{create_event_of_recorded}
use ai_calling_agent.Calls.Token.{Verdict, admitted, unauthorized, type_error}
use ai_calling_agent.Wire.{Link, delivered, unreachable, response_lost, guarded, exchange}
use ai_calling_agent.Gateway.Redis.{Redis}
use ai_calling_agent.Gateway.Sessions.{Session}
use ai_calling_agent.Gateway.CallStore.{CallStore}
use ai_calling_agent.Gateway.Payload.{HttpRequest, ExotelCallback, parse}
use ai_calling_agent.Gateway.Clients.{
  Api, verdict, duplicate_of, event_creation, serve_event, record_event,
}
use ai_calling_agent.Gateway.Callback.{Env, Gateway, after_record, recording, on_payload, callback}

-- The answer of a record request about an event that is recorded: a duplicate, or an error.
abbrev pub NotNew : Option Bool → Type 0
NotNew answer = (answer ≡ none) ⊎ (answer ≡ some true)

serve_event_of_recorded :
    (now : ℕ) (fresh_id : String) (body : EventCreateRequest) (api : Api) (pid id : String)
    → body.provider_call_id ≡ some pid
    → event_id pid body.event_type api.db.call_jobs ≡ some id
    → NotNew (serve_event now fresh_id body api).0 × ((serve_event now fresh_id body api).1 ≡ api)
unfolding serve_event duplicate_of create_event insert_job
serve_event_of_recorded now fresh_id body api pid id k e =
    elim (Bool-cases (is_valid_create body)) [
      | inr bad ↦ rw bad (inl refl, refl)
      | inl valid ↦ elim (Bool-cases (job_fits (new_job now fresh_id body))) [
        | inr wide ↦ rw (valid, wide) (inl refl, refl)
        | inl fit ↦
            let (job, same, r) =
              create_event_of_recorded now fresh_id body api.db api.queue pid k id e valid fit in
            (inr (ap (λ x. duplicate_of x) r), ap (λ x. record { db = x.db; queue = x.queue }) r)
      ]
    ]

exchange-unchanged {ℓ} :
    {S : Type ℓ} (link : Link) (v : Verdict) (handler : S → Option Bool × S) (s : S)
    → NotNew (handler s).0 × ((handler s).1 ≡ s)
    → NotNew (exchange link v handler s).0 × ((exchange link v handler s).1 ≡ s)
unfolding exchange guarded
exchange-unchanged delivered admitted handler s h = h
exchange-unchanged delivered unauthorized handler s h = (inl refl, refl)
exchange-unchanged delivered type_error handler s h = (inl refl, refl)
exchange-unchanged unreachable v handler s h = (inl refl, refl)
exchange-unchanged response_lost admitted handler s h = (inl refl, h.1)
exchange-unchanged response_lost unauthorized handler s h = (inl refl, refl)
exchange-unchanged response_lost type_error handler s h = (inl refl, refl)

module _ (R : Redis Session) (C : CallStore) where
  -- The gateway has recorded the event of the payload.
  abbrev pub Recorded : ExotelCallback → Gateway R C → String → Type 0
  Recorded payload gw id =
      event_id payload.provider_call_id (lower payload.event) gw.api.db.call_jobs ≡ some id

  pub recording_of_Recorded :
      (env : Env) (payload : ExotelCallback) (gw : Gateway R C) (id : String)
      → Recorded payload gw id
      → NotNew (recording R C env payload gw).0 × ((recording R C env payload gw).1 ≡ gw.api)
  unfolding recording record_event event_creation
  recording_of_Recorded env payload gw id e =
      exchange-unchanged env.record_link (verdict env.secrets) _ gw.api
        (serve_event_of_recorded env.db_now env.job_id _ gw.api payload.provider_call_id id refl e)

  after_record_of_old :
      (answer : Option Bool) (env : Env) (payload : ExotelCallback) (gw : Gateway R C)
      → NotNew answer
      → (after_record R C answer env payload gw).1 ≡ gw
  unfolding after_record
  after_record_of_old none env payload gw h = refl
  after_record_of_old (some true) env payload gw h = refl
  after_record_of_old (some false) env payload gw h = ground arith

  on_payload_of_Recorded :
      (env : Env) (payload : ExotelCallback) (gw : Gateway R C) (id : String)
      → Recorded payload gw id
      → (on_payload R C env payload gw).1 ≡ gw
  unfolding on_payload
  on_payload_of_Recorded env payload gw id e =
      let (old, same) = recording_of_Recorded env payload gw id e in
      after_record_of_old (recording R C env payload gw).0 env payload _ old
      ∙ ap (λ api. record gw { api = api }) same

  -- A delivery of an event that is recorded already changes nothing: no call, no session, no mapping
  -- and no job.
  pub callback_of_Recorded :
      (env : Env) (request : HttpRequest) (payload : ExotelCallback) (gw : Gateway R C)
      (id : String)
      → parse request ≡ some payload
      → Recorded payload gw id
      → (callback R C env request gw).1 ≡ gw
  unfolding callback
  callback_of_Recorded env request payload gw id p e =
      ground (arith, on_payload_of_Recorded env payload gw id e)
