-- ===== src/Calls/Tests.antt =====
-- The call API at concrete inputs: each theorem that has hypotheses, applied where they hold.
use ai_calling_agent.Prelude.{◌≡◌, refl, false, none, some, [], ◌∷◌, All}
use ai_calling_agent.Prelude.Table.{get, put}
use ai_calling_agent.Models.{Call, active, completed, connected}
use ai_calling_agent.Calls.Reasons.{outcome_of, lookup_reason}
use ai_calling_agent.Calls.Handlers.{
  CallCreateRequest, FinalizeRequest, FinalizeResponse, ok, create_call, finalize_call,
}
use ai_calling_agent.Calls.Ends.{AllFinalized}
use ai_calling_agent.Calls.Lifecycle.{
  IsConsistent, live, create_call-IsConsistent, finalize_call-IsConsistent,
  finalize_call-finalize_call,
}

abbrev incoming : CallCreateRequest
incoming = record {
  call_id = "call-1";
  tenant_id = "7";
  agent_id = "agent";
  started_at = 50;
  provider_call_id = some "exo-1";
  is_simulation = false;
}

abbrev live_call : Call
live_call = record {
  call_id = "call-1";
  tenant_id = "7";
  agent_id = "agent";
  provider_call_id = some "exo-1";
  status = active;
  started_at = 50;
  ended_at = none;
  end_reason = none;
  created_at = 60;
  is_simulation = false;
  connection_status = connected;
  call_request_id = none;
}

abbrev hangup : FinalizeRequest
hangup = record { ended_at = 90; end_reason = "caller_hangup" }

abbrev lost : FinalizeRequest
lost = record { ended_at = 95; end_reason = "network_error" }

abbrev ended_call : Call
ended_call = record live_call {
  ended_at = some 90;
  end_reason = some "caller_hangup";
  status = completed;
}

abbrev hung_up : FinalizeResponse
hung_up = record {
  call_id = "call-1";
  status = completed;
  connection_status = connected;
  is_simulation = false;
  ended_at = 90;
  end_reason = "caller_hangup";
}

live_call-IsConsistent : IsConsistent live_call
live_call-IsConsistent = live refl refl refl refl

create_call-IsConsistent_example : All IsConsistent (create_call 60 incoming []).1
create_call-IsConsistent_example = create_call-IsConsistent 60 incoming [] tt

finalize_call-IsConsistent_example :
    All IsConsistent (finalize_call "call-1" lost (live_call ∷ [])).1
    × AllFinalized "call-1" lost (live_call ∷ []) (finalize_call "call-1" lost (live_call ∷ [])).1
finalize_call-IsConsistent_example =
    finalize_call-IsConsistent "call-1" lost (live_call ∷ []) (live_call-IsConsistent, tt)

finalize_call-finalize_call_example :
    finalize_call "call-1" lost (ended_call ∷ []) ≡ (ok hung_up, ended_call ∷ [])
unfolding finalize_call get put outcome_of lookup_reason
finalize_call-finalize_call_example =
    finalize_call-finalize_call "call-1" hangup lost (live_call ∷ []) (ended_call ∷ []) hung_up refl
