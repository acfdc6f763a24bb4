-- ===== src/Gateway/Callback.antt =====
-- services/voice-gateway/exotel_routes.py: `callback`, with the services behind it.
use ai_calling_agent.Prelude.{
  ℕ, String, Bool, true, false, ◌==◌, ◌||◌, Option, none, some, [], ◌∷◌, one_of, if◌then◌else◌,
}
use ai_calling_agent.Prelude.Text.{lower}
use ai_calling_agent.Json.{Json, null, text, Fields, end, field}
use ai_calling_agent.Calls.Token.{admitted, unauthorized, type_error}
use ai_calling_agent.Calls.Handlers.{CallCreateRequest}
use ai_calling_agent.Wire.{Link}
use ai_calling_agent.Gateway.Redis.{Redis}
use ai_calling_agent.Gateway.Sessions as S
use ai_calling_agent.Gateway.Sessions.{Session, Manager, discard}
use ai_calling_agent.Gateway.CallStore.{CallStore}
use ai_calling_agent.Gateway.Payload.{HttpRequest, ExotelCallback, authenticate, parse}
use ai_calling_agent.Gateway.Clients.{
  Api, Secrets, Routing, event_creation, record_event, create_remote, finalize_remote, resolve,
}

-- The answers: the "status" of a 200 with its "call_id", or the status code of an error.
pub data Answer : Type 0 where
  duplicate session_started session_cleaned : String → Answer
  ignored : Answer
  refused : ℕ → Answer

-- What one delivery of a webhook meets: the links to the API, one reading of the clock of the gateway
-- and one of the database's, the ids that are drawn, the configuration, and how the payload is
-- serialised.
pub record Env : Type 0 where
  pub webhook_token : String
  pub secrets : Secrets
  pub routing : Option Routing
  pub record_link : Link
  pub resolve_link : Link
  pub create_link : Link
  pub finalize_link : Link
  pub now : ℕ
  pub db_now : ℕ
  pub job_id : String
  pub call_id : String
  pub dump : Fields → Fields

unfoldable pub is_start : String → Bool
is_start event = one_of event ("connected" ∷ "start" ∷ "answered" ∷ "started" ∷ [])

unfoldable pub is_end : String → Bool
is_end event = one_of event ("completed" ∷ "failed" ∷ "disconnected" ∷ "terminal" ∷ [])

-- (call_status or "").lower()
unfoldable pub lower_or_empty : Option String → String
lower_or_empty none = ""
lower_or_empty (some s) = lower s

unfoldable pub end_reason : ExotelCallback → String
unfolding lower_or_empty
end_reason payload =
    if lower payload.event == "failed"
      || one_of (lower_or_empty payload.call_status) ("failed" ∷ "busy" ∷ "no-answer" ∷ [])
    then "provider_failure"
    else "caller_hangup"

unfoldable pub json_of : Option String → Json
json_of none = null
json_of (some s) = text s

-- The payload that is recorded.
unfoldable pub event_payload : ExotelCallback → Fields
unfolding json_of
event_payload payload =
    field "dialed_number" (json_of payload.dialed_number)
      (field "call_status" (json_of payload.call_status) end)

-- `_store.get(…) or ""`
unfoldable pub id_or_empty : Option String → String
id_or_empty none = ""
id_or_empty (some id) = id

-- CallCreation(…) of the handler.
unfoldable pub call_creation : Env → ExotelCallback → String × String → CallCreateRequest
call_creation env payload who = record {
  call_id = env.call_id;
  tenant_id = who.0;
  agent_id = who.1;
  started_at = env.now;
  provider_call_id = some payload.provider_call_id;
  is_simulation = false;
}

module _ (R : Redis Session) (C : CallStore) where
  -- The API service, and the sessions and the mapping of the gateway.
  pub record Gateway : Type 0 where
    pub api : Api
    pub sessions : Manager R
    pub store : C.State

  -- After the call is created.
  unfoldable pub open_session : Env → ExotelCallback → String × String → Gateway → Gateway
  open_session env payload who gw = record gw {
    sessions = S.create R env.now env.call_id who.0 who.1 gw.sessions;
    store = C.set payload.provider_call_id env.call_id gw.store;
  }

  -- A start event whose number is routed.
  unfoldable pub start_call : Env → ExotelCallback → String × String → Gateway → Answer × Gateway
  unfolding call_creation open_session
  start_call env payload who gw =
      let (created, api) =
        create_remote env.create_link env.secrets env.db_now (call_creation env payload who)
          gw.api in
      elim created [
        | none ↦ (refused 503, record gw { api = api })
        | some call ↦
            (session_started env.call_id, open_session env payload who (record gw { api = api }))
      ]

  unfoldable pub route_call : Env → ExotelCallback → Routing → String → Gateway → Answer × Gateway
  unfolding start_call
  route_call env payload routing number gw =
      elim (resolve routing env.resolve_link env.secrets number gw.api) [
        | none ↦ (refused 404, gw)
        | some who ↦ start_call env payload who gw
      ]

  -- A start event.
  unfoldable pub on_start : Env → ExotelCallback → Gateway → Answer × Gateway
  unfolding route_call
  on_start env payload gw = elim env.routing [
    | none ↦ (refused 503, gw)
    | some routing ↦ elim payload.dialed_number [
      | none ↦ (refused 422, gw)
      | some number ↦
          let routed = route_call env payload routing number gw in
          if number == "" then (refused 422, gw) else routed
    ]
  ]

  -- The session of a finalized call is ended and removed, where there is one.
  unfoldable pub close_session : String → Manager R → Manager R
  close_session id m = elim (S.get R id m).0 [
    | none ↦ (S.get R id m).1
    | some s ↦ discard R id (S.end R id (S.get R id m).1)
  ]

  -- After the call is finalized.
  unfoldable pub clean_up : String → String → Gateway → Gateway
  unfolding close_session
  clean_up pid id gw = record gw {
    sessions = close_session id gw.sessions;
    store = C.delete pid gw.store;
  }

  -- An end event whose call is known.
  unfoldable pub end_call : Env → ExotelCallback → String → Gateway → Answer × Gateway
  unfolding clean_up
  end_call env payload id gw =
      let (done, api) =
        finalize_remote env.finalize_link env.secrets id
          (record { ended_at = env.now; end_reason = end_reason payload }) gw.api in
      elim done [
        | none ↦ (refused 503, record gw { api = api })
        | some response ↦
            (session_cleaned id, clean_up payload.provider_call_id id (record gw { api = api }))
      ]

  -- An end event.
  unfoldable pub on_end : Env → ExotelCallback → Gateway → Answer × Gateway
  unfolding end_call
  on_end env payload gw = elim (C.get payload.provider_call_id gw.store) [
    | none ↦ (ignored, gw)
    | some id ↦ let ended = end_call env payload id gw in if id == "" then (ignored, gw) else ended
  ]

  -- An event that is recorded for the first time.
  unfoldable pub on_event : Env → ExotelCallback → Gateway → Answer × Gateway
  unfolding on_start on_end
  on_event env payload gw =
      if is_start (lower payload.event)
      then on_start env payload gw
      else if is_end (lower payload.event)
      then on_end env payload gw
      else (ignored, gw)

  -- After the attempt to record the event.
  unfoldable pub after_record : Option Bool → Env → ExotelCallback → Gateway → Answer × Gateway
  unfolding on_event id_or_empty
  after_record none env payload gw = (refused 503, gw)
  after_record (some true) env payload gw =
      (duplicate (id_or_empty (C.get payload.provider_call_id gw.store)), gw)
  after_record (some false) env payload gw = on_event env payload gw

  -- The request that records the event.
  unfoldable pub recording : Env → ExotelCallback → Gateway → Option Bool × Api
  unfolding event_payload
  recording env payload gw =
      record_event env.record_link env.secrets env.db_now env.job_id
        (event_creation env.dump payload.provider_call_id (lower payload.event)
          (event_payload payload))
        gw.api

  unfoldable pub on_payload : Env → ExotelCallback → Gateway → Answer × Gateway
  unfolding recording after_record
  on_payload env payload gw =
      let (recorded, api) = recording env payload gw in
      after_record recorded env payload (record gw { api = api })

  -- GET or POST /telephony/exotel/callback
  unfoldable pub callback : Env → HttpRequest → Gateway → Answer × Gateway
  unfolding on_payload
  callback env request gw = elim (authenticate env.webhook_token request) [
    | unauthorized ↦ (refused 401, gw)
    | type_error ↦ (refused 500, gw)
    | admitted ↦ elim (parse request) [
      | none ↦ (refused 422, gw)
      | some payload ↦ on_payload env payload gw
    ]
  ]
