-- ===== src/Portal/Calls.antt =====
-- services/api/src/routers/client.py: `list_calls`, `get_call` and `get_analytics`.
use Prim.Native.String.{◌++◌ as append}
use ai_calling_agent.Prelude.{
  ℕ, ◌+◌, ◌*◌, ◌/◌, String, Bool, true, false, ◌&&◌, ◌||◌, ◌==◌, Option, none, some, List, [], ◌∷◌,
  eqb, leb, ltb, length, select, if◌then◌else◌,
}
use ai_calling_agent.Prelude.Rows.{first}
use ai_calling_agent.Models.{seconds}
use ai_calling_agent.Accounts.Models.{Caller, Reply, ok, raised, number_is, guarded}
use ai_calling_agent.Accounts.Tokens.{Claims}
use ai_calling_agent.Accounts.Scope.{Context, tenant_context, is_visible}
use ai_calling_agent.Paging.{Paginated, is_page, listing, NewestFirst}
use ai_calling_agent.Portal.Access.{require_client, require_client_admin}

-- column ILIKE %search%, which is not true of NULL; `ilike` is the database's operator.
unfoldable pub contains : (String → String → Bool) → String → Option String → Bool
contains ilike search none = false
contains ilike search (some s) = ilike s (append "%" (append search "%"))

-- The optional search of a listing: `if search`.
unfoldable pub if_search {ℓ} : {A : Type ℓ} → (String → A → Bool) → Option String → A → Bool
if_search test none row = true
if_search test (some s) row = if s == "" then true else test s row

unfoldable pub call_matches : (String → String → Bool) → String → Caller → Bool
unfolding contains
call_matches ilike s call =
    contains ilike s call.customer_name || contains ilike s call.phone_number

-- The rows of call_requests that a request sees, and of them those of one tenant.
unfoldable pub tenant_calls : Context → ℕ → List Caller → List Caller
unfolding select is_visible number_is
tenant_calls c id calls =
    select (λ call. is_visible c call.client_id && number_is call.client_id id) calls

-- GET /client/calls
unfoldable pub list_calls :
    NewestFirst Caller (λ call. call.created_at)
    → (String → String → Bool)
    → ℕ
    → ℕ
    → Option String
    → Claims
    → List Caller
    → Reply (Paginated Caller)
unfolding guarded is_page tenant_calls if_search call_matches listing
list_calls order ilike page per_page search user calls = guarded (require_client user) (λ id.
    if is_page page per_page
    then ok (
        listing page per_page (
          order.sort (
            select (if_search (call_matches ilike) search)
              (tenant_calls (tenant_context user) id calls))))
    else raised 422 "Invalid query")

unfoldable pub own_call : ℕ → Option Caller → Reply Caller
unfolding number_is
own_call id none = raised 404 "Call not found"
own_call id (some call) =
    if number_is call.client_id id then ok call else raised 404 "Call not found"

-- GET /client/calls/{call_id}
unfoldable pub get_call : ℕ → Claims → List Caller → Reply Caller
unfolding guarded own_call is_visible
get_call call_id user calls = guarded (require_client user) (λ id.
    own_call id (
      first (λ call. is_visible (tenant_context user) call.client_id && eqb call.id call_id) calls))

pub record CallVolumeDay : Type 0 where
  pub day : ℕ
  pub count : ℕ

pub record AnalyticsResponse : Type 0 where
  pub total_calls : ℕ
  pub calls_this_month : ℕ
  pub calls_this_week : ℕ
  pub daily_volume : List CallVolumeDay

-- One more call of a day, in a list of days in ascending order.
unfoldable pub count_day : ℕ → List CallVolumeDay → List CallVolumeDay
count_day day [] = record { day = day; count = 1 } ∷ []
count_day day (d ∷ days) =
    let rest = count_day day days in
    if ltb day d.day
    then record { day = day; count = 1 } ∷ d ∷ days
    else if eqb day d.day
    then record d { count = d.count + 1 } ∷ days
    else d ∷ rest

-- The day of a time, counted from the epoch.
abbrev pub day_of : ℕ → ℕ
day_of t = t / seconds 86_400

-- SELECT date, count(*) … GROUP BY date ORDER BY date
unfoldable pub by_day : List Caller → List CallVolumeDay
unfolding count_day
by_day [] = []
by_day (call ∷ calls) = count_day (day_of call.created_at) (by_day calls)

-- created_at >= now - days
unfoldable pub is_within : ℕ → ℕ → Caller → Bool
is_within now days call = leb now (call.created_at + seconds (days * 86_400))

-- The statistics of the tenant's calls; `month` is the first instant of the month of `now`.
unfoldable pub analytics : ℕ → ℕ → List Caller → AnalyticsResponse
unfolding by_day is_within select
analytics now month calls = record {
  total_calls = length calls;
  calls_this_month = length (select (λ call. leb month call.created_at) calls);
  calls_this_week = length (select (is_within now 7) calls);
  daily_volume = by_day (select (is_within now 30) calls);
}

-- GET /client/analytics
unfoldable pub get_analytics : ℕ → ℕ → Claims → List Caller → Reply AnalyticsResponse
unfolding guarded analytics tenant_calls
get_analytics now month user calls =
    guarded (require_client_admin user)
      (λ id. ok (analytics now month (tenant_calls (tenant_context user) id calls)))
