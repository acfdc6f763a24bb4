-- ===== src/Gateway/Outcomes.antt =====
-- What an answer of the callback in services/voice-gateway/exotel_routes.py says about the state behind it.
use ai_calling_agent.Prelude.{
  ◌≡◌, refl, String, Bool, true, false, some, inl, inr, arith, ap, sym, ◌∙◌, Option-cases,
}
use ai_calling_agent.Models.{Call}
use ai_calling_agent.Jobs.Create.{create_event, insert_job}
use ai_calling_agent.Calls.Token.{admitted}
use ai_calling_agent.Calls.Handlers as H
use ai_calling_agent.Calls.Handlers.{
  CallCreateRequest, FinalizeRequest, FinalizeResponse, new_call, create_call, get_call,
  finalize_call,
}
use ai_calling_agent.Calls.Lifecycle.{create_call-created}
use ai_calling_agent.Wire.{exchange-some, exchange-keeps}
use ai_calling_agent.Gateway.Redis.{Redis}
use ai_calling_agent.Gateway.Sessions as S
use ai_calling_agent.Gateway.Sessions.{Session, new_session}
use ai_calling_agent.Gateway.Turns.{get-create}
use ai_calling_agent.Gateway.CallStore.{CallStore}
use ai_calling_agent.Gateway.Payload.{HttpRequest, ExotelCallback, authenticate, parse}
use ai_calling_agent.Gateway.Clients.{
  Api, Routing, verdict, raise_for_status, serve_event, record_event, create_remote, serve_create,
  resolve,
}
use ai_calling_agent.Gateway.Callback.{
  Answer, session_started, session_cleaned, Env, Gateway, call_creation, open_session, start_call,
  route_call, on_start, on_event, after_record, recording, on_payload, callback,
}

pub raise_for_status-some {ℓ} :
    {A : Type ℓ} (r : H.Reply A) (a : A) → raise_for_status r ≡ some a → r ≡ H.ok a
unfolding raise_for_status
raise_for_status-some (H.ok x) a h = ground arith
raise_for_status-some (H.raised e) a h = ground arith

-- A call that the client takes for created can be read back from the API as it was sent.
create_remote-created :
    (env : Env) (body : CallCreateRequest) (api : Api) (call : Call)
    → (create_remote env.create_link env.secrets env.db_now body api).0 ≡ some call
    → get_call body.call_id
        (create_remote env.create_link env.secrets env.db_now body api).1.db.calls
      ≡ H.ok (new_call env.db_now body)
unfolding create_remote serve_create
create_remote-created env body api call h =
    let e =
      exchange-some env.create_link (verdict env.secrets) (serve_create env.db_now body) api call
        h in
    let r =
      raise_for_status-some (create_call env.db_now body api.db.calls).0 call
        (ap (λ x. x.0) (sym e) ∙ h) in
    let (back, new, again) =
      create_call-created env.db_now env.db_now body body api.db.calls
        (create_call env.db_now body api.db.calls).1 call
        (ap (λ a. (a, (create_call env.db_now body api.db.calls).1)) r) refl in
    ap (λ x. get_call body.call_id x.1.db.calls) e ∙ back ∙ ap H.ok new

module _ (R : Redis Session) (C : CallStore) where
  -- The state behind the answer "session_started" with this id.
  pub record IsStarted (env : Env) (payload : ExotelCallback) (who : String × String) (id : String)
      (gw gw' : Gateway R C) : Type 0 where
    pub drawn : id ≡ env.call_id
    pub call :
        get_call id gw'.api.db.calls ≡ H.ok (new_call env.db_now (call_creation env payload who))
    pub session : (S.get R id gw'.sessions).0 ≡ some (new_session env.now id who.0 who.1)
    pub mapping : gw'.store ≡ C.set payload.provider_call_id id gw.store

  start_call-IsStarted :
      (env : Env) (payload : ExotelCallback) (who : String × String) (id : String)
      (gw gw' : Gateway R C)
      → start_call R C env payload who gw ≡ (session_started id, gw')
      → IsStarted env payload who id gw gw'
  unfolding start_call open_session call_creation
  start_call-IsStarted env payload who id gw gw' h =
      elim (Option-cases
        (create_remote env.create_link env.secrets env.db_now (call_creation env payload who)
          gw.api).0) [
            | inl e ↦ ground arith
            | inr (call, e) ↦
                let back =
                  create_remote-created env (call_creation env payload who) gw.api call e in
                let read = get-create R env.now env.call_id who.0 who.1 gw.sessions in
                record {
                  drawn = ground arith;
                  call = ground arith;
                  session = ground arith;
                  mapping = ground arith;
                }
          ]

  route_call-IsStarted :
      (env : Env) (payload : ExotelCallback) (routing : Routing) (number id : String)
      (gw gw' : Gateway R C)
      → route_call R C env payload routing number gw ≡ (session_started id, gw')
      → (who : String × String) × (resolve routing env.resolve_link env.secrets number gw.api
          ≡ some who)
        × IsStarted env payload who id gw gw'
  unfolding route_call
  route_call-IsStarted env payload routing number id gw gw' h =
      elim (Option-cases (resolve routing env.resolve_link env.secrets number gw.api)) [
        | inl e ↦ ground arith
        | inr (who, e) ↦ (who, e, start_call-IsStarted env payload who id gw gw' (ground arith))
      ]

  pub on_start-IsStarted :
      (env : Env) (payload : ExotelCallback) (id : String) (gw gw' : Gateway R C)
      → on_start R C env payload gw ≡ (session_started id, gw')
      → (routing : Routing) × (number : String) × (who : String × String) × (env.routing
          ≡ some routing)
        × (payload.dialed_number ≡ some number)
        × (resolve routing env.resolve_link env.secrets number gw.api ≡ some who)
        × IsStarted env payload who id gw gw'
  unfolding on_start
  on_start-IsStarted env payload id gw gw' h = elim (Option-cases env.routing) [
    | inl e ↦ ground arith
    | inr (routing, e) ↦ elim (Option-cases payload.dialed_number) [
      | inl f ↦ ground arith
      | inr (number, f) ↦
          let (who, found, started) =
            route_call-IsStarted env payload routing number id gw gw' (ground arith) in
          (routing, number, who, e, f, found, started)
    ]
  ]

-- The answer says that the event had its effect.
unfoldable pub acts : Answer → Bool
acts (session_started id) = true
acts (session_cleaned id) = true
acts _ = false

module _ (R : Redis Session) (C : CallStore) where
  -- The gateway once the event is recorded.
  abbrev pub recorded : Env → ExotelCallback → Gateway R C → Gateway R C
  recorded env payload gw = record gw { api = (recording R C env payload gw).1 }

  -- A delivery that had an effect was authentic, could be read, and was the first to record its event.
  pub callback-acts :
      (env : Env) (request : HttpRequest) (answer : Answer) (gw gw' : Gateway R C)
      → callback R C env request gw ≡ (answer, gw')
      → acts answer ≡ true
      → (authenticate env.webhook_token request ≡ admitted)
        × (payload : ExotelCallback) × (parse request ≡ some payload)
        × ((recording R C env payload gw).0 ≡ some false)
        × (on_event R C env payload (recorded env payload gw) ≡ (answer, gw'))
  unfolding callback on_payload after_record acts
  callback-acts env request answer gw gw' h a = elim (Option-cases (parse request)) [
    | inl e ↦ ground arith
    | inr (payload, e) ↦ (ground arith, payload, e, ground arith, ground arith)
  ]

  pub recording-calls :
      (env : Env) (payload : ExotelCallback) (gw : Gateway R C)
      → (recording R C env payload gw).1.db.calls ≡ gw.api.db.calls
  unfolding recording record_event serve_event create_event insert_job
  recording-calls env payload gw =
      exchange-keeps (λ api. api.db.calls) env.record_link (verdict env.secrets) _ gw.api
        (ground arith)
