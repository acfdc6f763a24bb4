-- ===== src/Gateway/CallbackTests.antt =====
-- The callback at concrete inputs: each theorem that has hypotheses, applied where they hold.
use ai_calling_agent.Prelude.{
  ◌≡◌, ◌≢◌, refl, String, true, false, Option, none, some, [], ◌∷◌, arith, ap, one_of,
}
use ai_calling_agent.Prelude.Dict.{lookup, insert, remove}
use ai_calling_agent.Prelude.Table.{get}
use ai_calling_agent.Prelude.Text.{lower}
use ai_calling_agent.Json.{truthy}
use ai_calling_agent.Jobs.Schema.{is_valid_create}
use ai_calling_agent.Jobs.Create.{find_event, has_event, new_job, create_event, insert_job}
use ai_calling_agent.Jobs.Events.{event_id}
use ai_calling_agent.Calls.Token.{
  digest_verdict, admitted, compare_digest, is_ascii, verify_internal_token,
}
use ai_calling_agent.Calls.Handlers.{new_call, create_call, finalize_call}
use ai_calling_agent.Wire.{delivered, unreachable, exchange, guarded, with_internal_auth}
use ai_calling_agent.Gateway.CallStore.{dict_call_store}
use ai_calling_agent.Gateway.Payload.{
  HttpRequest, ExotelCallback, no_body, or_text, authenticate, parse,
}
use ai_calling_agent.Gateway.Clients.{
  Routing, resolve, create_remote, raise_for_status, finalize_remote, dev_routing, verdict,
  duplicate_of, record_event, event_creation,
}
use ai_calling_agent.Gateway.Callback.{
  session_started, session_cleaned, refused, Env, Gateway, is_start, is_end, end_reason,
  call_creation, callback, recording,
}
use ai_calling_agent.Gateway.Replays.{Recorded}
use ai_calling_agent.Gateway.Redeliveries.{callback-callback}
use ai_calling_agent.Gateway.Outcomes.{recorded, IsStarted}
use ai_calling_agent.Gateway.Starts.{callback-IsStarted}
use ai_calling_agent.Gateway.Endings.{IsCleaned, callback-IsCleaned, callback_of_unreachable}
use ai_calling_agent.Gateway.Access.{callback-authentic}
use ai_calling_agent.Gateway.Available.{R, empty}

abbrev env : Env
env = record {
  webhook_token = "hook";
  secrets = record { server = "s3cret"; client = "s3cret" };
  routing = some dev_routing;
  record_link = delivered;
  resolve_link = delivered;
  create_link = delivered;
  finalize_link = delivered;
  now = 100;
  db_now = 101;
  job_id = "job-1";
  call_id = "call-1";
  dump = λ fields. fields;
}

abbrev G : Type 0
G = Gateway R dict_call_store

abbrev idle : G
idle = record {
  api = record {
    db = record { call_jobs = []; calls = []; phone_number_routes = [] };
    queue = none;
  };
  sessions = empty;
  store = [];
}

abbrev start : HttpRequest
start = record {
  token_header = some "hook";
  query = ("CallSid", "exo-1") ∷ ("EventType", "Answered") ∷ ("To", "+917314623519") ∷ [];
  body = no_body;
}

abbrev answered : ExotelCallback
answered = record {
  provider_call_id = "exo-1";
  event = "Answered";
  dialed_number = some "+917314623519";
  call_status = none;
}

abbrev talking : G
talking = (callback R dict_call_store env start idle).1

start_parses : parse start ≡ some answered
unfolding parse lookup remove insert truthy
start_parses = refl

start_runs : callback R dict_call_store env start idle ≡ (session_started "call-1", talking)
unfolding callback parse lookup remove insert truthy compare_digest is_ascii lower is_start one_of
    record_event event_creation recording exchange create_event insert_job verify_internal_token
    duplicate_of find_event get create_call verdict authenticate guarded with_internal_auth
    is_valid_create new_job resolve create_remote raise_for_status
start_runs = refl

callback-IsStarted_example :
    (authenticate "hook" start ≡ admitted)
    × (payload : ExotelCallback) × (parse start ≡ some payload)
    × (is_start (lower payload.event) ≡ true)
    × (event_id payload.provider_call_id (lower payload.event) [] ≡ none)
    × (routing : Routing) × (number : String) × (who : String × String) × (env.routing
        ≡ some routing)
    × (payload.dialed_number ≡ some number)
    × (resolve routing delivered env.secrets number
          (recorded R dict_call_store env payload idle).api
        ≡ some who)
    × IsStarted R dict_call_store env payload who "call-1" idle talking
callback-IsStarted_example =
    callback-IsStarted R dict_call_store env start "call-1" idle talking start_runs

mapped : lookup "exo-1" talking.store ≡ some "call-1"
unfolding callback parse lookup remove insert truthy compare_digest is_ascii lower is_start one_of
    record_event event_creation recording exchange create_event insert_job verify_internal_token
    duplicate_of find_event get create_call verdict authenticate guarded with_internal_auth
    is_valid_create new_job resolve create_remote raise_for_status
mapped = refl

start_changed : talking ≢ idle
unfolding lookup
start_changed = λ h. ground (arith, mapped, ap (λ (g : G). lookup "exo-1" g.store) h)

callback-authentic_example :
    (◌≡◌ {A = Option String} (some "hook") (some "hook")) × (◌≢◌ {A = String} "hook" "")
unfolding or_text
callback-authentic_example = callback-authentic R dict_call_store env start idle start_changed

talking-Recorded : Recorded R dict_call_store answered talking "job-1"
unfolding callback parse lookup remove insert truthy compare_digest is_ascii lower is_start one_of
    record_event event_creation recording exchange create_event insert_job verify_internal_token
    duplicate_of find_event get create_call verdict authenticate guarded with_internal_auth
    is_valid_create new_job resolve create_remote raise_for_status event_id has_event
talking-Recorded = refl

abbrev stop : HttpRequest
stop = record {
  token_header = none;
  query =
      ("token", "hook")
      ∷ ("CallSid", "exo-1")
      ∷ ("EventType", "terminal")
      ∷ ("Status", "busy")
      ∷ [];
  body = no_body;
}

abbrev ended : ExotelCallback
ended = record {
  provider_call_id = "exo-1";
  event = "terminal";
  dialed_number = none;
  call_status = some "busy";
}

abbrev later : Env
later = record env { now = 200; db_now = 201; job_id = "job-2"; call_id = "call-2" }

abbrev cut_off : Env
cut_off = record later { finalize_link = unreachable }

abbrev talk : G
talk = record {
  api = record {
    db = record {
      call_jobs = [];
      calls = new_call 101 (call_creation env answered ("7", "agent")) ∷ [];
      phone_number_routes = [];
    };
    queue = none;
  };
  sessions = empty;
  store = ("exo-1", "call-1") ∷ [];
}

abbrev hung_up : G
hung_up = (callback R dict_call_store later stop talk).1

stop_parses : parse stop ≡ some ended
unfolding parse lookup remove insert truthy
stop_parses = refl

stop_runs : callback R dict_call_store later stop talk ≡ (session_cleaned "call-1", hung_up)
unfolding callback parse lookup remove insert truthy compare_digest is_ascii lower is_start one_of
    record_event event_creation recording exchange create_event insert_job verify_internal_token
    duplicate_of find_event get create_call verdict authenticate guarded with_internal_auth
    is_valid_create new_job resolve create_remote raise_for_status is_end finalize_remote
    finalize_call new_call call_creation end_reason
stop_runs = refl

callback-IsCleaned_example :
    (authenticate "hook" stop ≡ admitted)
    × (payload : ExotelCallback) × (parse stop ≡ some payload)
    × (is_end (lower payload.event) ≡ true)
    × IsCleaned R dict_call_store later payload "call-1" talk hung_up
callback-IsCleaned_example =
    callback-IsCleaned R dict_call_store later stop "call-1" talk hung_up stop_runs

stop_is_new : (recording R dict_call_store cut_off ended talk).0 ≡ some false
unfolding callback parse lookup remove insert truthy compare_digest is_ascii lower is_start one_of
    record_event event_creation recording exchange create_event insert_job verify_internal_token
    duplicate_of find_event get create_call verdict authenticate guarded with_internal_auth
    is_valid_create new_job resolve create_remote raise_for_status
stop_is_new = refl

callback-callback_example :
    (callback R dict_call_store later stop (callback R dict_call_store cut_off stop talk).1).1
    ≡ (callback R dict_call_store cut_off stop talk).1
unfolding authenticate or_text lookup compare_digest is_ascii digest_verdict
callback-callback_example =
    callback-callback R dict_call_store cut_off later stop stop ended ended talk false refl
      stop_parses stop_parses refl refl stop_is_new

callback_of_unreachable_example :
    let first = callback R dict_call_store cut_off stop talk in
    (first.0 ≡ refused 503)
    × (first.1.store ≡ ("exo-1", "call-1") ∷ [])
    × (first.1.sessions ≡ empty)
    × (first.1.api.db.calls ≡ new_call 101 (call_creation env answered ("7", "agent")) ∷ [])
    × ((callback R dict_call_store later stop first.1).1 ≡ first.1)
unfolding authenticate or_text lookup compare_digest is_ascii digest_verdict lower is_start is_end
    one_of
callback_of_unreachable_example =
    callback_of_unreachable R dict_call_store cut_off later stop stop ended ended "call-1" talk refl
      stop_parses stop_parses refl refl refl refl stop_is_new refl refl refl
