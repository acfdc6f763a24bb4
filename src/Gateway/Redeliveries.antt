-- ===== src/Gateway/Redeliveries.antt =====
-- What a second delivery of one webhook finds after the first (services/voice-gateway/exotel_routes.py).
use ai_calling_agent.Prelude.{
  ℕ, ◌≡◌, refl, String, Bool, Option, some, List, inl, inr, arith, ap, sym, ◌∙◌, Option-cases,
}
use ai_calling_agent.Prelude.Text.{lower}
use ai_calling_agent.Models.{CallJob}
use ai_calling_agent.Jobs.Schema.{EventCreateRequest, Reply, ok, raised}
use ai_calling_agent.Jobs.Create.{create_event, Created, CreateResult}
use ai_calling_agent.Jobs.Machine.{alone}
use ai_calling_agent.Jobs.Events.{event_id}
use ai_calling_agent.Jobs.Idempotence.{event_id-created}
use ai_calling_agent.Calls.Token.{admitted}
use ai_calling_agent.Wire.{exchange-some, exchange-keeps}
use ai_calling_agent.Gateway.Redis.{Redis}
use ai_calling_agent.Gateway.Sessions.{Session}
use ai_calling_agent.Gateway.CallStore.{CallStore}
use ai_calling_agent.Gateway.Payload.{HttpRequest, ExotelCallback, authenticate, parse}
use ai_calling_agent.Gateway.Clients.{
  Api, verdict, Routing, duplicate_of, event_creation, serve_event, record_event, create_remote,
  serve_create, finalize_remote, serve_finalize, resolve,
}
use ai_calling_agent.Gateway.Callback.{
  Env, Gateway, end_reason, call_creation, start_call, route_call, on_start, end_call, on_end,
  on_event, after_record, recording, on_payload, callback,
}
use ai_calling_agent.Gateway.Replays.{Recorded, callback_of_Recorded}

duplicate_of-ok :
    (r : CreateResult) (b : Bool) → duplicate_of r ≡ some b → (c : Created) × (r.reply ≡ ok c)
unfolding duplicate_of
duplicate_of-ok r b h = go r.reply refl
  where
    go : (x : Reply Created) → r.reply ≡ x → (c : Created) × (r.reply ≡ ok c)
    go (ok c) e = (c, e)
    go (raised x) e = ground arith

serve_event-recorded :
    (now : ℕ) (fresh_id : String) (body : EventCreateRequest) (api : Api) (pid : String) (b : Bool)
    → body.provider_call_id ≡ some pid
    → (serve_event now fresh_id body api).0 ≡ some b
    → (id : String) × (event_id pid body.event_type
          (serve_event now fresh_id body api).1.db.call_jobs
        ≡ some id)
unfolding serve_event
serve_event-recorded now fresh_id body api pid b k h =
    let (c, e) = duplicate_of-ok (create_event alone now fresh_id body api.db api.queue) b h in
    (c.job.job_id, event_id-created now fresh_id body api.db api.queue pid k c e)

abbrev jobs_of : Api → List CallJob
jobs_of api = api.db.call_jobs

module _ (R : Redis Session) (C : CallStore) where
  recording-recorded :
      (env : Env) (payload : ExotelCallback) (gw : Gateway R C) (b : Bool)
      → (recording R C env payload gw).0 ≡ some b
      → (id : String) × (event_id payload.provider_call_id
            (lower payload.event)
            (recording R C env payload gw).1.db.call_jobs
          ≡ some id)
  unfolding recording record_event event_creation
  recording-recorded env payload gw b h =
      let e = exchange-some env.record_link (verdict env.secrets) _ gw.api b h in
      let (id, at) =
        serve_event-recorded env.db_now env.job_id _ gw.api payload.provider_call_id b refl
          (ap (λ r. r.0) (sym e) ∙ h) in
      (
        id,
        ap (λ r. event_id payload.provider_call_id (lower payload.event) r.1.db.call_jobs) e ∙ at,
      )

  create_remote-jobs :
      (env : Env) (payload : ExotelCallback) (who : String × String) (api : Api)
      → jobs_of
          (create_remote env.create_link env.secrets env.db_now
            (call_creation env payload who)
            api).1
        ≡ jobs_of api
  unfolding create_remote serve_create
  create_remote-jobs env payload who api =
      exchange-keeps jobs_of env.create_link (verdict env.secrets) _ api refl

  start_call-jobs :
      (env : Env) (payload : ExotelCallback) (who : String × String) (gw : Gateway R C)
      → jobs_of (start_call R C env payload who gw).1.api ≡ jobs_of gw.api
  unfolding start_call
  start_call-jobs env payload who gw = ground (arith, create_remote-jobs env payload who gw.api)

  route_call-jobs :
      (env : Env) (payload : ExotelCallback) (routing : Routing) (number : String)
      (gw : Gateway R C)
      → jobs_of (route_call R C env payload routing number gw).1.api ≡ jobs_of gw.api
  unfolding route_call
  route_call-jobs env payload routing number gw =
      elim (Option-cases (resolve routing env.resolve_link env.secrets number gw.api)) [
        | inl e ↦ ground arith
        | inr (who, e) ↦ ground (arith, start_call-jobs env payload who gw)
      ]

  on_start-jobs :
      (env : Env) (payload : ExotelCallback) (gw : Gateway R C)
      → jobs_of (on_start R C env payload gw).1.api ≡ jobs_of gw.api
  unfolding on_start
  on_start-jobs env payload gw = elim (Option-cases env.routing) [
    | inl e ↦ ground arith
    | inr (routing, e) ↦ elim (Option-cases payload.dialed_number) [
      | inl f ↦ ground arith
      | inr (number, f) ↦ ground (arith, route_call-jobs env payload routing number gw)
    ]
  ]

  end_call-jobs :
      (env : Env) (payload : ExotelCallback) (id : String) (gw : Gateway R C)
      → jobs_of (end_call R C env payload id gw).1.api ≡ jobs_of gw.api
  unfolding end_call finalize_remote serve_finalize
  end_call-jobs env payload id gw = ground (
    arith,
    exchange-keeps jobs_of env.finalize_link (verdict env.secrets)
        (serve_finalize id (record { ended_at = env.now; end_reason = end_reason payload })) gw.api
        refl,
  )

  on_end-jobs :
      (env : Env) (payload : ExotelCallback) (gw : Gateway R C)
      → jobs_of (on_end R C env payload gw).1.api ≡ jobs_of gw.api
  unfolding on_end
  on_end-jobs env payload gw = elim (Option-cases (C.get payload.provider_call_id gw.store)) [
    | inl e ↦ ground arith
    | inr (id, e) ↦ ground (arith, end_call-jobs env payload id gw)
  ]

  after_record-jobs :
      (answer : Option Bool) (env : Env) (payload : ExotelCallback) (gw : Gateway R C)
      → jobs_of (after_record R C answer env payload gw).1.api ≡ jobs_of gw.api
  unfolding after_record on_event
  after_record-jobs answer env payload gw =
      ground (arith, on_start-jobs env payload gw, on_end-jobs env payload gw)

  -- What is recorded is still recorded when the delivery ends.
  callback-Recorded :
      (env : Env) (request : HttpRequest) (payload : ExotelCallback) (gw : Gateway R C) (b : Bool)
      → authenticate env.webhook_token request ≡ admitted
      → parse request ≡ some payload
      → (recording R C env payload gw).0 ≡ some b
      → (id : String) × Recorded R C payload (callback R C env request gw).1 id
  unfolding callback on_payload
  callback-Recorded env request payload gw b auth p h =
      let (id, at) = recording-recorded env payload gw b h in
      (
        id,
        ground (
          arith,
          after_record-jobs (recording R C env payload gw).0 env payload
              (record gw { api = (recording R C env payload gw).1 }),
        ),
      )

  -- Once a delivery has recorded its event, whatever became of the delivery after that, a second delivery
  -- of the event, with whatever other contents, changes nothing.
  pub callback-callback :
      (env env' : Env) (request request' : HttpRequest) (payload payload' : ExotelCallback)
      (gw : Gateway R C) (b : Bool)
      → authenticate env.webhook_token request ≡ admitted
      → parse request ≡ some payload
      → parse request' ≡ some payload'
      → payload'.provider_call_id ≡ payload.provider_call_id
      → lower payload'.event ≡ lower payload.event
      → (recording R C env payload gw).0 ≡ some b
      → (callback R C env' request' (callback R C env request gw).1).1
        ≡ (callback R C env request gw).1
  callback-callback env env' request request' payload payload' gw b auth p p' same_id same_event h =
      let (id, at) = callback-Recorded env request payload gw b auth p h in
      callback_of_Recorded R C env' request' payload' (callback R C env request gw).1 id p'
        (ground arith)
