-- ===== src/Gateway/Starts.antt =====
-- The start events of services/voice-gateway/exotel_routes.py.
use ai_calling_agent.Prelude.{
  ◌≡◌, refl, String, true, false, none, some, inl, inr, arith, Option-cases, ◌≢◌,
}
use ai_calling_agent.Prelude.Text.{lower}
use ai_calling_agent.Calls.Token.{admitted}
use ai_calling_agent.Gateway.Redis.{Redis}
use ai_calling_agent.Gateway.Sessions.{Session}
use ai_calling_agent.Gateway.CallStore.{CallStore}
use ai_calling_agent.Gateway.Payload.{HttpRequest, ExotelCallback, authenticate, parse}
use ai_calling_agent.Gateway.Clients.{Routing, resolve}
use ai_calling_agent.Gateway.Callback.{
  session_started, Env, Gateway, is_start, on_start, end_call, on_end, on_event, recording,
  callback,
}
use ai_calling_agent.Jobs.Events.{event_id}
use ai_calling_agent.Gateway.Replays.{recording_of_Recorded}
use ai_calling_agent.Gateway.Outcomes.{IsStarted, on_start-IsStarted, acts, recorded, callback-acts}

module _ (R : Redis Session) (C : CallStore) where
  end_call-not_started :
      (env : Env) (payload : ExotelCallback) (id x : String) (gw gw' : Gateway R C)
      → end_call R C env payload x gw ≢ (session_started id, gw')
  unfolding end_call
  end_call-not_started env payload id x gw gw' = λ h. ground arith

  on_end-not_started :
      (env : Env) (payload : ExotelCallback) (id : String) (gw gw' : Gateway R C)
      → on_end R C env payload gw ≢ (session_started id, gw')
  unfolding on_end
  on_end-not_started env payload id gw gw' = λ h.
      elim (Option-cases (C.get payload.provider_call_id gw.store)) [
        | inl e ↦ ground arith
        | inr (x, e) ↦ ground (arith, end_call-not_started env payload id x gw gw')
      ]

  on_event-IsStarted :
      (env : Env) (payload : ExotelCallback) (id : String) (gw gw' : Gateway R C)
      → on_event R C env payload gw ≡ (session_started id, gw')
      → (is_start (lower payload.event) ≡ true)
        × (on_start R C env payload gw ≡ (session_started id, gw'))
  unfolding on_event
  on_event-IsStarted env payload id gw gw' h =
      ground (arith, on_end-not_started env payload id gw gw')

  event_id_of_new :
      (env : Env) (payload : ExotelCallback) (gw : Gateway R C)
      → (recording R C env payload gw).0 ≡ some false
      → event_id payload.provider_call_id (lower payload.event) gw.api.db.call_jobs ≡ none
  event_id_of_new env payload gw h =
      elim (Option-cases
        (event_id payload.provider_call_id (lower payload.event) gw.api.db.call_jobs)) [
          | inl e ↦ e
          | inr (id, e) ↦ elim (recording_of_Recorded R C env payload gw id e).0 [
            | inl bad ↦ ground arith
            | inr bad ↦ ground arith
          ]
        ]

  -- The answer "session_started" means: the request is authentic, the event is a start event that was
  -- not recorded before, its number is routed to a tenant and an agent, the id is the drawn one, the
  -- API has the new call under that id with those parties, the session of the id is there and active,
  -- and the call store is as its `set` of the provider's call id to that id leaves it. With Redis, `set`
  -- suppresses an error, and the mapping is then not persisted.
  pub callback-IsStarted :
      (env : Env) (request : HttpRequest) (id : String) (gw gw' : Gateway R C)
      → callback R C env request gw ≡ (session_started id, gw')
      → (authenticate env.webhook_token request ≡ admitted)
        × (payload : ExotelCallback) × (parse request ≡ some payload)
        × (is_start (lower payload.event) ≡ true)
        × (event_id payload.provider_call_id (lower payload.event) gw.api.db.call_jobs ≡ none)
        × (routing : Routing) × (number : String) × (who : String × String) × (env.routing
            ≡ some routing)
        × (payload.dialed_number ≡ some number)
        × (resolve routing env.resolve_link env.secrets number (recorded R C env payload gw).api
            ≡ some who)
        × IsStarted R C env payload who id gw gw'
  unfolding acts
  callback-IsStarted env request id gw gw' h =
      let (auth, payload, p, new, e) =
        callback-acts R C env request (session_started id) gw gw' h refl in
      let (start, s) = on_event-IsStarted env payload id (recorded R C env payload gw) gw' e in
      let (routing, number, who, r, n, w, done) =
        on_start-IsStarted R C env payload id (recorded R C env payload gw) gw' s in
      (
        auth,
        payload,
        p,
        start,
        event_id_of_new env payload gw new,
        routing,
        number,
        who,
        r,
        n,
        w,
        record {
          drawn = done.drawn;
          call = done.call;
          session = done.session;
          mapping = done.mapping;
        },
      )
