-- ===== src/Entry/Tests.antt =====
-- services/api/src/main.py: POST /call at a concrete input, read by the tenant that placed the call and by
-- another, and the answer of GET /health in each state.
use ai_calling_agent.Prelude.{
  ℕ, ◌≡◌, refl, true, false, Option, none, some, [], ◌∷◌, eqb, if◌then◌else◌,
}
use ai_calling_agent.Prelude.Dict.{Dict}
use ai_calling_agent.Prelude.Rows.{first}
use ai_calling_agent.Gateway.Available.{up}
use ai_calling_agent.Accounts.Models.{Client, Accounts, ok, raised}
use ai_calling_agent.Accounts.Tokens.{Claims}
use ai_calling_agent.Accounts.Scope.{tenant_context}
use ai_calling_agent.Portal.Access.{require_client}
use ai_calling_agent.Portal.Calls.{get_call}
use ai_calling_agent.Entry.Phone.{CallerRequest, cleaned}
use ai_calling_agent.Entry.Calls.{new_caller, make_call}
use ai_calling_agent.Entry.Health.{health}
use ai_calling_agent.Entry.Placed.{make_call-get_call}

abbrev agent : ℕ → Claims
agent tenant = record {
  sub = some "u-1";
  role = some "agent";
  exp = 900;
  token_type = some "access";
  email = some "a@x";
  full_name = some "A";
  client_id = some tenant;
}

abbrev tenant_7 : Client
tenant_7 = record {
  id = 7;
  name = "Hotel";
  slug = some "hotel";
  plan = some "pro";
  status = some "active";
  contact_email = none;
  contact_phone = none;
  api_limit = none;
  max_concurrent_calls = none;
  created_at = 1;
  updated_at = 1;
  country = none;
  timezone = none;
  currency = none;
  default_language = none;
  phone_country_code = none;
}

abbrev db : Accounts
db = record { clients = tenant_7 ∷ []; users = []; customers = []; callers = []; audit_logs = [] }

abbrev request : CallerRequest
request = record {
  customer_name = "Noor";
  phone_number = "+971 50-123 4567";
  hotel_name = "Grand";
  check_in_date = "2026-01-01";
  check_out_date = "2026-01-02";
}

abbrev state : Accounts × Option (Dict CallerRequest)
state = (db, some [])

abbrev after : Accounts × Option (Dict CallerRequest)
after = (make_call (up CallerRequest) 5 1 "s-1" (agent 7) request state).1

placed :
    make_call (up CallerRequest) 5 1 "s-1" (agent 7) request state
    ≡ (ok (record { redis_session = some "s-1" }), after)
unfolding make_call first tenant_context
placed = refl

agent_of : (tenant : ℕ) → eqb tenant 0 ≡ false → require_client (agent tenant) ≡ ok tenant
unfolding require_client
agent_of tenant h = rw h refl

make_call-get_call_example : get_call 1 (agent 9) after.0.callers ≡ (
    if eqb 7 9
    then ok
        (new_caller 5 1 (some 7) (record request { phone_number = cleaned request.phone_number }))
    else raised 404 "Call not found")
make_call-get_call_example =
    make_call-get_call (up CallerRequest) 5 1 "s-1" (agent 7) (agent 9) 7 9 request db (some [])
      (record { redis_session = some "s-1" }) after (agent_of 7 refl) (agent_of 9 refl) placed

health_codes :
    ((health true none).status_code ≡ 200)
    × ((health true (some false)).status_code ≡ 503)
    × ((health false (some true)).status_code ≡ 503)
unfolding health
health_codes = (refl, refl, refl)
