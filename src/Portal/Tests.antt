-- ===== src/Portal/Tests.antt =====
-- services/api/src/routers/client.py: the properties at concrete inputs. The tenant 7 has an agent, two calls
-- and a customer; the tenant 9 has a customer with the same phone.
use mathlib.Core.List.{Perm}
use ai_calling_agent.Prelude.{
  ◌≤◌, length, ℕ, ◌≡◌, ◌≢◌, refl, String, true, ◌==◌, Option, none, some, List, [], ◌∷◌, arith,
  select,
}
use ai_calling_agent.Prelude.Rows.{first}
use ai_calling_agent.Models.{not_attempted}
use ai_calling_agent.Accounts.Models.{
  Client, User, Customer, Caller, pending, outbound, ok, raised, number_is, text_is,
}
use ai_calling_agent.Accounts.Tokens.{Claims, Expiry, get_current_user}
use ai_calling_agent.Accounts.Encoding.{plain_jwt, plain_bcrypt, check_plain}
use ai_calling_agent.Accounts.Login.{
  tokens, LoginRequest, TokenResponse, Bootstrap, login, refresh, password_ok, or_if_empty,
}
use ai_calling_agent.Accounts.Scope.{tenant_context}
use ai_calling_agent.Paging.{Paginated, NewestFirst}
use ai_calling_agent.Paging.Sorting.{newest_rows, HasDistinctTimes}
use ai_calling_agent.Portal.Access.{require_client, is_client_role}
use ai_calling_agent.Portal.Statistics.{IsAscending, volume, analytics-volume}
use ai_calling_agent.Portal.Calls.{analytics, is_within, list_calls, if_search, call_matches}
use ai_calling_agent.Portal.Customers.{CustomerCreate, create_or_update_customer}
use ai_calling_agent.Portal.Tenancy.{customers_of, create_or_update_customer-customers_of}
use ai_calling_agent.Portal.Upserts.{create_or_update_customer-create_or_update_customer}
use ai_calling_agent.Portal.Listings.{walk, list_calls-walk-perm}
use ai_calling_agent.Portal.Refreshes.{login-refresh-require_client}

abbrev agent : Claims
agent = record {
  sub = some "u-1";
  role = some "agent";
  exp = 900;
  token_type = some "access";
  email = some "a@x";
  full_name = some "A";
  client_id = some 7;
}

abbrev tenant_7 : Client
tenant_7 = record {
  id = 7;
  name = "Hotel";
  slug = some "hotel";
  plan = some "pro";
  status = some "active";
  contact_email = none;
  contact_phone = none;
  api_limit = none;
  max_concurrent_calls = none;
  created_at = 1;
  updated_at = 1;
  country = none;
  timezone = none;
  currency = none;
  default_language = none;
  phone_country_code = none;
}

abbrev customer : String → ℕ → Option String → ℕ → Customer
customer id client_id name at = record {
  id = id;
  client_id = client_id;
  name = name;
  phone = "+971501234567";
  email = none;
  language_code = none;
  timezone = none;
  country_code = none;
  notes = none;
  external_id = none;
  created_at = at;
  updated_at = at;
}

abbrev named : CustomerCreate
named = record {
  phone = "+971501234567";
  fields = record {
    name = some "Noor";
    email = none;
    language_code = none;
    timezone = none;
    country_code = none;
    notes = none;
    external_id = none;
  };
}

abbrev theirs : List Customer
theirs = customer "c-9" 9 none 3 ∷ []

abbrev call : ℕ → ℕ → Option ℕ → Caller
call id at client_id = record {
  id = id;
  customer_name = some "Noor";
  phone_number = some "+971501234567";
  hotel_name = none;
  check_in_date = none;
  check_out_date = none;
  client_id = client_id;
  created_at = at;
  status = pending;
  call_type = outbound;
  is_simulation = true;
  customer_id = none;
  telephony_call_id = none;
  connection_status = not_attempted;
  failure_reason = none;
  duration_seconds = none;
  recording_url = none;
  notes = none;
  outcome = none;
}

abbrev some_calls : List Caller
some_calls = call 1 10 (some 7) ∷ call 2 20 (some 9) ∷ call 3 30 (some 7) ∷ []

other_tenant : agent.client_id ≢ some 9
other_tenant h = ground arith

create_or_update_customer-customers_of_example :
    customers_of 9 (create_or_update_customer 5 "c-1" named agent (tenant_7 ∷ []) theirs).1
    ≡ customers_of 9 theirs
create_or_update_customer-customers_of_example =
    create_or_update_customer-customers_of 5 "c-1" named agent (tenant_7 ∷ []) theirs 9 other_tenant

created :
    create_or_update_customer 5 "c-1" named agent (tenant_7 ∷ []) theirs
    ≡ (ok (customer "c-1" 7 (some "Noor") 5), customer "c-1" 7 (some "Noor") 5 ∷ theirs)
unfolding create_or_update_customer tenant_context first
created = refl

create_or_update_customer-create_or_update_customer_example :
    create_or_update_customer 8 "c-2" named agent [] (customer "c-1" 7 (some "Noor") 5 ∷ theirs)
    ≡ (ok (customer "c-1" 7 (some "Noor") 5), customer "c-1" 7 (some "Noor") 5 ∷ theirs)
create_or_update_customer-create_or_update_customer_example =
    create_or_update_customer-create_or_update_customer 5 8 "c-1" "c-2" named agent (tenant_7 ∷ [])
      [] theirs (customer "c-1" 7 (some "Noor") 5) (customer "c-1" 7 (some "Noor") 5 ∷ theirs)
      created

agent_tenant : require_client agent ≡ ok 7
unfolding require_client
agent_tenant = refl

-- The order of each page's query.
abbrev order : ℕ → NewestFirst Caller (λ c. c.created_at)
order page = newest_rows (λ c. c.created_at)

distinct_times : HasDistinctTimes (λ (c : Caller). c.created_at) some_calls
distinct_times = omega arith

list_calls-walk-perm_example :
    (p : Paginated Caller) × (list_calls (order 1) ◌==◌ 1 1 none agent some_calls ≡ ok p)
    × Perm
        (walk (λ page. list_calls (order page) ◌==◌ page 1 none agent some_calls) p.total_pages 1)
        (select
          (if_search (call_matches ◌==◌) none)
          (select (λ (c : Caller). number_is c.client_id 7) some_calls))
list_calls-walk-perm_example =
    list_calls-walk-perm order ◌==◌ 1 none agent some_calls 7 agent_tenant (omega arith)
      (omega arith) distinct_times

abbrev expiry : Expiry
expiry = record { access_minutes = 1; refresh_minutes = 2 }

abbrev no_bootstrap : Bootstrap
no_bootstrap = record { admin_email = ""; password = ""; full_name = "" }

abbrev an_agent : User
an_agent = record {
  id = "u-1";
  email = "a@x";
  full_name = "A";
  password_hash = some "pw";
  role = none;
  tenant_id = some 7;
  status = some "active";
  created_at = 1;
}

abbrev credentials : LoginRequest
credentials = record { email = "a@x"; password = "pw" }

found : first (λ u. u.email == credentials.email) (an_agent ∷ []) ≡ some an_agent
unfolding first
found = refl

active : text_is an_agent.status "active" ≡ true
unfolding text_is
active = refl

known : password_ok plain_jwt plain_bcrypt expiry credentials.password an_agent.password_hash ≡ true
unfolding password_ok check_plain
known = refl

is_agent : is_client_role (some (or_if_empty an_agent.role "agent")) ≡ true
unfolding is_client_role or_if_empty
is_agent = refl

login-refresh-require_client_example :
    (t t' : TokenResponse) × (c c' : Claims) × (login plain_jwt plain_bcrypt expiry 100 no_bootstrap
        credentials
        (an_agent ∷ [])
      ≡ ok t)
    × (get_current_user plain_jwt 100 (some t.access_token) ≡ ok c)
    × (require_client c ≡ ok 7)
    × (refresh plain_jwt plain_bcrypt expiry 150 t.refresh_token ≡ ok t')
    × (get_current_user plain_jwt 150 (some t'.access_token) ≡ ok c')
    × (require_client c' ≡ raised 403 "Token has no tenant assigned. Contact your administrator.")
login-refresh-require_client_example =
    login-refresh-require_client plain_jwt plain_bcrypt expiry 100 no_bootstrap credentials
      (an_agent ∷ []) an_agent found active known 150 6 refl is_agent (omega arith)

abbrev pair : TokenResponse
pair = tokens plain_jwt plain_bcrypt expiry 100 "u-1" "agent" (some 7) "a@x" "A"

logged_in :
    login plain_jwt plain_bcrypt expiry 100 no_bootstrap credentials (an_agent ∷ []) ≡ ok pair
unfolding login first check_plain
logged_in = refl

analytics-volume_example :
    IsAscending (analytics 100 0 some_calls).daily_volume
    × ((analytics 100 0 some_calls).calls_this_week
        ≤ volume (analytics 100 0 some_calls).daily_volume)
    × (volume (analytics 100 0 some_calls).daily_volume
        ≡ length (select (is_within 100 30) some_calls))
    × (volume (analytics 100 0 some_calls).daily_volume ≤ (analytics 100 0 some_calls).total_calls)
analytics-volume_example = analytics-volume 100 0 some_calls
