-- ===== src/Gateway/Clients.antt =====
-- services/voice-gateway/internal_calls.py: the clients of the internal API, with the handlers of
-- services/api behind them; services/voice-gateway/dev_routing.py, the routing of development runs.
use ai_calling_agent.Prelude.{ℕ, String, Bool, Option, none, some, ◌==◌, if◌then◌else◌}
use ai_calling_agent.Json.{Fields}
use ai_calling_agent.Models.{Database, Call}
use ai_calling_agent.Jobs.Schema.{EventCreateRequest, Queue, ok, raised}
use ai_calling_agent.Jobs.Create.{create_event, CreateResult}
use ai_calling_agent.Jobs.Machine.{alone}
use ai_calling_agent.Calls.Token.{Verdict, verify_internal_token}
use ai_calling_agent.Calls.Handlers as H
use ai_calling_agent.Calls.Handlers.{
  CallCreateRequest, FinalizeRequest, FinalizeResponse, PhoneRouteResponse, create_call,
  finalize_call, get_phone_route,
}
use ai_calling_agent.Wire.{Link, with_internal_auth, exchange}

-- The API service: its tables and the wake-up queue that it writes to.
pub record Api : Type 0 where
  pub db : Database
  pub queue : Option Queue

-- INTERNAL_API_TOKEN of the API service and of the client.
pub record Secrets : Type 0 where
  pub server : String
  pub client : String

-- The API's guard on the client's header.
unfoldable pub verdict : Secrets → Verdict
verdict s = verify_internal_token s.server (with_internal_auth s.client)

-- response.raise_for_status() on an answer of the call API
unfoldable pub raise_for_status {ℓ} : {A : Type ℓ} → H.Reply A → Option A
raise_for_status (H.ok a) = some a
raise_for_status (H.raised e) = none

-- The answer's `duplicate`; an error response is an InternalApiError.
unfoldable pub duplicate_of : CreateResult → Option Bool
duplicate_of r = elim r.reply [ ok c ↦ some c.duplicate | raised e ↦ none ]

-- The request of EventsClient.record: the keywords that `callback` leaves out are None. `dump` is
-- the serialisation of the payload.
unfoldable pub event_creation : (Fields → Fields) → String → String → Fields → EventCreateRequest
event_creation dump pid event payload = record {
  event_type = event;
  provider_call_id = some pid;
  tenant_id = none;
  call_id = none;
  payload = some (dump payload);
  max_attempts = none;
}

-- The handler behind EventsClient.record.
unfoldable pub serve_event : ℕ → String → EventCreateRequest → Api → Option Bool × Api
serve_event now fresh_id body api =
    let r = create_event alone now fresh_id body api.db api.queue in
    (duplicate_of r, record { db = r.db; queue = r.queue })

-- EventsClient.record
unfoldable pub record_event :
    Link → Secrets → ℕ → String → EventCreateRequest → Api → Option Bool × Api
unfolding serve_event
record_event link secrets now fresh_id body api =
    exchange link (verdict secrets) (serve_event now fresh_id body) api

-- CallCreation, as the API reads it: `is_simulation` is not sent, so it takes its default.
unfoldable pub serve_create : ℕ → CallCreateRequest → Api → Option Call × Api
serve_create now body api =
    let r = create_call now body api.db.calls in
    (raise_for_status r.0, record api { db = record api.db { calls = r.1 } })

-- InternalCallsClient.create
unfoldable pub create_remote : Link → Secrets → ℕ → CallCreateRequest → Api → Option Call × Api
unfolding serve_create
create_remote link secrets now body api =
    exchange link (verdict secrets) (serve_create now body) api

unfoldable pub serve_finalize : String → FinalizeRequest → Api → Option FinalizeResponse × Api
serve_finalize call_id body api =
    let r = finalize_call call_id body api.db.calls in
    (raise_for_status r.0, record api { db = record api.db { calls = r.1 } })

-- InternalCallsClient.finalize
unfoldable pub finalize_remote :
    Link → Secrets → String → FinalizeRequest → Api → Option FinalizeResponse × Api
unfolding serve_finalize
finalize_remote link secrets call_id body api =
    exchange link (verdict secrets) (serve_finalize call_id body) api

-- The route's tenant and agent.
unfoldable pub parties : PhoneRouteResponse → String × String
parties r = (r.tenant_id, r.agent_id)

unfoldable pub serve_route : String → Api → Option (String × String) × Api
serve_route number api =
    elim (raise_for_status (get_phone_route number api.db.phone_number_routes)) [
      | none ↦ (none, api)
      | some r ↦ (some (parties r), api)
    ]

-- The routing that the router is built with.
pub data Routing : Type 0 where
  api_routing dev_routing : Routing

-- TestExotelRoutingStub.resolve
unfoldable pub resolve_dev : String → Option (String × String)
resolve_dev number = if number == "+917314623519" then some ("test-tenant", "test-agent") else none

-- PhoneRouting.resolve. It reads only, so a lost answer is a plain failure.
unfoldable pub resolve : Routing → Link → Secrets → String → Api → Option (String × String)
unfolding resolve_dev serve_route
resolve api_routing link secrets number api =
    (exchange link (verdict secrets) (serve_route number) api).0
resolve dev_routing link secrets number api = resolve_dev number
