-- ===== src/Calls/Handlers.antt =====
-- The handlers of services/api/src/routers/internal.py.
use ai_calling_agent.Prelude.{
  ℕ, String, Bool, ◌&&◌, Option, none, some, List, [], ◌∷◌, ◌++◌, is_some, ◌==◌, if◌then◌else◌,
}
use ai_calling_agent.Prelude.Table.{get, put}
use ai_calling_agent.Models.{
  Call, call_key, CallStatus, active, ConnectionStatus, connected, PhoneNumberRoute, route_key,
}
use ai_calling_agent.Jobs.Create.{fits}
use ai_calling_agent.Calls.Reasons.{outcome_of}

pub record CallCreateRequest : Type 0 where
  pub call_id : String
  pub tenant_id : String
  pub agent_id : String
  pub started_at : ℕ
  pub provider_call_id : Option String
  pub is_simulation : Bool

pub record FinalizeRequest : Type 0 where
  pub ended_at : ℕ
  pub end_reason : String

pub record FinalizeResponse : Type 0 where
  pub call_id : String
  pub status : CallStatus
  pub connection_status : ConnectionStatus
  pub is_simulation : Bool
  pub ended_at : ℕ
  pub end_reason : String

pub record PhoneRouteResponse : Type 0 where
  pub tenant_id : String
  pub agent_id : String
  pub provider : String

-- The errors: 409, 404, and the exception of a text too long for its column, a 500.
pub data CallsError : Type 0 where
  already_exists call_not_found route_not_found data_error : CallsError

unfoldable pub status_code : CallsError → ℕ
status_code already_exists = 409
status_code call_not_found = 404
status_code route_not_found = 404
status_code data_error = 500

pub data Reply {ℓ} (A : Type ℓ) : Type ℓ where
  ok : A → Reply A
  raised : CallsError → Reply A

abbrev pub Calls : Type 0
Calls = List Call

-- `Call(…)` of the handler, with the column defaults that the INSERT fills in at `now`.
unfoldable pub new_call : ℕ → CallCreateRequest → Call
new_call now body = record {
  call_id = body.call_id;
  tenant_id = body.tenant_id;
  agent_id = body.agent_id;
  provider_call_id = body.provider_call_id;
  status = active;
  started_at = body.started_at;
  ended_at = none;
  end_reason = none;
  created_at = now;
  is_simulation = body.is_simulation;
  connection_status = connected;
  call_request_id = none;
}

-- The widths of the text columns.
unfoldable pub call_fits : Call → Bool
unfolding fits
call_fits call =
    fits 36 (some call.call_id)
    && fits 255 (some call.tenant_id)
    && fits 255 (some call.agent_id)
    && fits 255 call.provider_call_id

-- POST /internal/v1/calls
unfoldable pub create_call : ℕ → CallCreateRequest → Calls → Reply Call × Calls
unfolding new_call call_fits
create_call now body calls =
    if is_some (get call_key body.call_id calls)
    then (raised already_exists, calls)
    else if call_fits (new_call now body)
    then (ok (new_call now body), calls ++ new_call now body ∷ [])
    else (raised data_error, calls)

-- GET /internal/v1/calls/{call_id}
unfoldable pub get_call : String → Calls → Reply Call
get_call id calls = elim (get call_key id calls) [ none ↦ raised call_not_found | some c ↦ ok c ]

-- `call.end_reason or ""`
unfoldable pub or_empty : Option String → String
or_empty none = ""
or_empty (some s) = s

-- The row with the outcome written.
unfoldable pub finalized : FinalizeRequest → Call → Call
finalized body call = record call {
  ended_at = some body.ended_at;
  end_reason = some body.end_reason;
  status = (outcome_of body.end_reason).status;
  connection_status = (outcome_of body.end_reason).connection_status;
}

-- The answer about a call that ended at `ended`.
unfoldable pub response : ℕ → Call → FinalizeResponse
unfolding or_empty
response ended call = record {
  call_id = call.call_id;
  status = call.status;
  connection_status = call.connection_status;
  is_simulation = call.is_simulation;
  ended_at = ended;
  end_reason = or_empty call.end_reason;
}

-- The body of the handler, on the row that it loaded and its `ended_at`.
unfoldable pub finalize_row :
    Option ℕ → FinalizeRequest → Call → Calls → Reply FinalizeResponse × Calls
unfolding finalized response fits
finalize_row (some ended) body call calls = (ok (response ended call), calls)
finalize_row none body call calls =
    if fits 100 (some body.end_reason)
    then (
      ok (response body.ended_at (finalized body call)),
      put call_key call.call_id (finalized body call) calls,
    )
    else (raised data_error, calls)

-- POST /internal/v1/calls/{call_id}/finalize
unfoldable pub finalize_call : String → FinalizeRequest → Calls → Reply FinalizeResponse × Calls
unfolding finalize_row
finalize_call id body calls = elim (get call_key id calls) [
  | none ↦ (raised call_not_found, calls)
  | some call ↦ finalize_row call.ended_at body call calls
]

-- `route.provider or "exotel"`
unfoldable pub provider_or_exotel : Option String → String
provider_or_exotel none = "exotel"
provider_or_exotel (some p) = if p == "" then "exotel" else p

-- GET /internal/v1/phone-routes/{number}
unfoldable pub get_phone_route : String → List PhoneNumberRoute → Reply PhoneRouteResponse
unfolding provider_or_exotel
get_phone_route number routes = elim (get route_key number routes) [
  | none ↦ raised route_not_found
  | some r ↦ ok (record {
    tenant_id = r.tenant_id;
    agent_id = r.agent_id;
    provider = provider_or_exotel r.provider;
  })
]
