-- ===== src/Gateway/Endings.antt =====
-- The end events of services/voice-gateway/exotel_routes.py.
use mathlib.Core.Path.{subst}
use ai_calling_agent.Prelude.{
  ◌≡◌, refl, String, true, false, ◌==◌, none, some, inl, inr, arith, ap, sym, ◌∙◌, eq_refl,
  Option-cases, ◌≢◌,
}
use ai_calling_agent.Prelude.Text.{lower}
use ai_calling_agent.Prelude.Dict.{lookup, lookup-remove}
use ai_calling_agent.Calls.Token.{admitted}
use ai_calling_agent.Calls.Handlers as H
use ai_calling_agent.Calls.Handlers.{
  CallCreateRequest, FinalizeRequest, FinalizeResponse, new_call, create_call, get_call,
  finalize_call,
}
use ai_calling_agent.Prelude.Table.{get}
use ai_calling_agent.Models.{Call, call_key}
use ai_calling_agent.Calls.Ends.{AllFinalized, finalize_call-AllFinalized, finalize_call-ended}
use ai_calling_agent.Wire.{unreachable, exchange, exchange-some}
use ai_calling_agent.Gateway.Redis.{Redis}
use ai_calling_agent.Gateway.Sessions as S
use ai_calling_agent.Gateway.Sessions.{Session, Manager, new_session, discard, read_quietly}
use ai_calling_agent.Gateway.CallStore.{CallStore}
use ai_calling_agent.Gateway.Payload.{HttpRequest, ExotelCallback, authenticate, parse}
use ai_calling_agent.Gateway.Clients.{Api, verdict, finalize_remote, serve_finalize, resolve}
use ai_calling_agent.Gateway.Callback.{
  session_cleaned, refused, Env, Gateway, is_end, is_start, end_reason, start_call, route_call,
  on_start, clean_up, close_session, end_call, on_end, on_event, after_record, recording,
  on_payload, callback,
}
use ai_calling_agent.Gateway.Redeliveries.{callback-callback}
use ai_calling_agent.Gateway.Outcomes.{
  acts, recorded, callback-acts, recording-calls, raise_for_status-some,
}

module _ (R : Redis Session) (C : CallStore) where
  -- The finalization that an end event asks for.
  abbrev pub outcome : Env → ExotelCallback → FinalizeRequest
  outcome env payload = record { ended_at = env.now; end_reason = end_reason payload }

  -- The state behind the answer "session_cleaned" with this id.
  pub record IsCleaned (env : Env) (payload : ExotelCallback) (id : String) (gw gw' : Gateway R C)
      : Type 0 where
    pub mapped : C.get payload.provider_call_id gw.store ≡ some id
    pub unmapped : gw'.store ≡ C.delete payload.provider_call_id gw.store
    pub response : FinalizeResponse
    pub call :
        finalize_call id (outcome env payload) gw.api.db.calls ≡ (H.ok response, gw'.api.db.calls)
    pub rows : AllFinalized id (outcome env payload) gw.api.db.calls gw'.api.db.calls
    pub ended : Call
    pub found : get call_key id gw'.api.db.calls ≡ some ended
    pub at : ended.ended_at ≡ some response.ended_at
    pub session : lookup id gw'.sessions.mem ≡ none

  finalize_remote-done :
      (env : Env) (body : FinalizeRequest) (id : String) (api : Api) (r : FinalizeResponse)
      → (finalize_remote env.finalize_link env.secrets id body api).0 ≡ some r
      → finalize_call id body api.db.calls
        ≡ (H.ok r, (finalize_remote env.finalize_link env.secrets id body api).1.db.calls)
  unfolding finalize_remote serve_finalize
  finalize_remote-done env body id api r h =
      let e =
        exchange-some env.finalize_link (verdict env.secrets) (serve_finalize id body) api r h in
      let k =
        raise_for_status-some (finalize_call id body api.db.calls).0 r
          (ap (λ x. x.0) (sym e) ∙ h) in
      ap (λ a. (a, (finalize_call id body api.db.calls).1)) k
      ∙ ap (λ c. (H.ok r, c)) (ap (λ x. x.1.db.calls) (sym e))

  lookup-discard : (id : String) (m : Manager R) → lookup id (discard R id m).mem ≡ none
  unfolding discard
  lookup-discard id m = ground (arith, lookup-remove id id m.mem, eq_refl id)

  lookup-get_of_none :
      (id : String) (m : Manager R)
      → (S.get R id m).0 ≡ none
      → lookup id (S.get R id m).1.mem ≡ none
  unfolding S.get S.load
  lookup-get_of_none id m h = elim (Option-cases (lookup id m.mem)) [
    | inl e ↦ elim (Option-cases (read_quietly R id m.redis)) [
      | inl f ↦ ground arith
      | inr (s, f) ↦ ground arith
    ]
    | inr (s, e) ↦ ground arith
  ]

  lookup-close_session :
      (id : String) (m : Manager R) → lookup id (close_session R C id m).mem ≡ none
  unfolding close_session
  lookup-close_session id m = elim (Option-cases (S.get R id m).0) [
    | inl e ↦ ground (arith, lookup-get_of_none id m)
    | inr (s, e) ↦ ground (arith, lookup-discard id (S.end R id (S.get R id m).1))
  ]

  end_call-IsCleaned :
      (env : Env) (payload : ExotelCallback) (x id : String) (gw gw' : Gateway R C)
      → C.get payload.provider_call_id gw.store ≡ some x
      → end_call R C env payload x gw ≡ (session_cleaned id, gw')
      → IsCleaned env payload id gw gw'
  unfolding end_call clean_up
  end_call-IsCleaned env payload x id gw gw' m h =
      elim (Option-cases
        (finalize_remote env.finalize_link env.secrets x (outcome env payload) gw.api).0) [
          | inl e ↦ ground arith
          | inr (r, e) ↦
              let k = finalize_remote-done env (outcome env payload) x gw.api r e in
              let l = lookup-close_session x gw.sessions in
              let rows =
                subst (λ c. AllFinalized x (outcome env payload) gw.api.db.calls c)
                  (ap (λ p. p.1) k)
                  (finalize_call-AllFinalized x (outcome env payload) gw.api.db.calls) in
              let done = finalize_call-ended x (outcome env payload) gw.api.db.calls _ r k in
              record {
                mapped = ground arith;
                unmapped = ground arith;
                response = r;
                call = ground arith;
                rows = ground (arith, rows);
                ended = done.0;
                found = ground (arith, done.1);
                at = done.2;
                session = ground arith;
              }
        ]

  on_end-IsCleaned :
      (env : Env) (payload : ExotelCallback) (id : String) (gw gw' : Gateway R C)
      → on_end R C env payload gw ≡ (session_cleaned id, gw')
      → IsCleaned env payload id gw gw'
  unfolding on_end
  on_end-IsCleaned env payload id gw gw' h =
      elim (Option-cases (C.get payload.provider_call_id gw.store)) [
        | inl e ↦ ground arith
        | inr (x, e) ↦ end_call-IsCleaned env payload x id gw gw' e (ground arith)
      ]

  start_call-not_cleaned :
      (env : Env) (payload : ExotelCallback) (who : String × String) (id : String)
      (gw gw' : Gateway R C)
      → start_call R C env payload who gw ≢ (session_cleaned id, gw')
  unfolding start_call
  start_call-not_cleaned env payload who id gw gw' = λ h. ground arith

  on_start-not_cleaned :
      (env : Env) (payload : ExotelCallback) (id : String) (gw gw' : Gateway R C)
      → on_start R C env payload gw ≢ (session_cleaned id, gw')
  unfolding on_start route_call
  on_start-not_cleaned env payload id gw gw' = λ h. elim (Option-cases env.routing) [
    | inl e ↦ ground arith
    | inr (routing, e) ↦ elim (Option-cases payload.dialed_number) [
      | inl f ↦ ground arith
      | inr (number, f) ↦
          elim (Option-cases (resolve routing env.resolve_link env.secrets number gw.api)) [
            | inl g ↦ ground arith
            | inr (who, g) ↦ ground (arith, start_call-not_cleaned env payload who id gw gw')
          ]
    ]
  ]

  on_event-IsCleaned :
      (env : Env) (payload : ExotelCallback) (id : String) (gw gw' : Gateway R C)
      → on_event R C env payload gw ≡ (session_cleaned id, gw')
      → (is_end (lower payload.event) ≡ true)
        × (on_end R C env payload gw ≡ (session_cleaned id, gw'))
  unfolding on_event
  on_event-IsCleaned env payload id gw gw' h =
      ground (arith, on_start-not_cleaned env payload id gw gw')

  -- The answer "session_cleaned" means: the request is authentic, the event is an end event, its call
  -- is the one that the call store maps the provider's call id to, the API answered `ok` to finalizing
  -- that call with the time and the reason of the event, the call there has now ended, at the time of
  -- that answer, and each row of the calls is as it was, or is that call, had not ended before, and has
  -- ended at the time and for the reason of the event. The call store is as its `delete` of the provider's
  -- call id leaves it, which with Redis suppresses an error, and no session of the call is left in memory.
  pub callback-IsCleaned :
      (env : Env) (request : HttpRequest) (id : String) (gw gw' : Gateway R C)
      → callback R C env request gw ≡ (session_cleaned id, gw')
      → (authenticate env.webhook_token request ≡ admitted)
        × (payload : ExotelCallback) × (parse request ≡ some payload)
        × (is_end (lower payload.event) ≡ true)
        × IsCleaned env payload id gw gw'
  unfolding acts
  callback-IsCleaned env request id gw gw' h =
      let (auth, payload, p, new, e) =
        callback-acts R C env request (session_cleaned id) gw gw' h refl in
      let (stop, s) = on_event-IsCleaned env payload id (recorded R C env payload gw) gw' e in
      let done = on_end-IsCleaned env payload id (recorded R C env payload gw) gw' s in
      (
        auth,
        payload,
        p,
        stop,
        record {
          mapped = done.mapped;
          unmapped = done.unmapped;
          response = done.response;
          call =
              ap (λ c. finalize_call id (outcome env payload) c)
                (sym (recording-calls R C env payload gw))
              ∙ done.call;
          rows =
              subst (λ c. AllFinalized id (outcome env payload) c gw'.api.db.calls)
                (recording-calls R C env payload gw) done.rows;
          ended = done.ended;
          found = done.found;
          at = done.at;
          session = done.session;
        },
      )

  -- An end event whose finalization does not reach the API, at its first delivery, is answered 503 with
  -- the call, the session and the mapping as they were; and then a second delivery of the event is not
  -- processed: it changes nothing, so the call stays as it was.
  pub callback_of_unreachable :
      (env env' : Env) (request request' : HttpRequest) (payload payload' : ExotelCallback)
      (id : String) (gw : Gateway R C)
      → authenticate env.webhook_token request ≡ admitted
      → parse request ≡ some payload
      → parse request' ≡ some payload'
      → payload'.provider_call_id ≡ payload.provider_call_id
      → lower payload'.event ≡ lower payload.event
      → is_start (lower payload.event) ≡ false
      → is_end (lower payload.event) ≡ true
      → (recording R C env payload gw).0 ≡ some false
      → C.get payload.provider_call_id gw.store ≡ some id
      → (id == "") ≡ false
      → env.finalize_link ≡ unreachable
      → let first = callback R C env request gw in
        (first.0 ≡ refused 503)
        × (first.1.store ≡ gw.store)
        × (first.1.sessions ≡ gw.sessions)
        × (first.1.api.db.calls ≡ gw.api.db.calls)
        × ((callback R C env' request' first.1).1 ≡ first.1)
  unfolding callback on_payload after_record on_event on_end end_call finalize_remote exchange
  callback_of_unreachable env env' request request' payload payload' id gw auth p p' same_id
        same_event not_start stop new mapped set lost =
      let kept = recording-calls R C env payload gw in
      (
        ground arith,
        ground arith,
        ground arith,
        ground arith,
        callback-callback R C env env' request request' payload payload' gw false auth p p' same_id
            same_event new,
      )
