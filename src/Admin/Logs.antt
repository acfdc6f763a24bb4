-- ===== src/Admin/Logs.antt =====
-- services/api/src/routers/admin.py: `list_calls` and `get_call`.
use ai_calling_agent.Prelude.{
  ℕ, String, Bool, ◌&&◌, Option, none, some, List, eqb, select, if◌then◌else◌,
}
use ai_calling_agent.Prelude.Rows.{first}
use ai_calling_agent.Accounts.Models.{Caller, Reply, ok, raised, guarded}
use ai_calling_agent.Accounts.Tokens.{Claims}
use ai_calling_agent.Accounts.Scope.{tenant_context, is_visible}
use ai_calling_agent.Paging.{Paginated, is_page, listing}
use ai_calling_agent.Portal.Calls.{if_search, call_matches}
use ai_calling_agent.Admin.Access.{require_admin, bound_tenant, is_bound, checked_row}

-- The calls that a listing is of. There is no ORDER BY: the rows come in the order of the table.
unfoldable pub found_calls :
    (String → String → Bool) → Claims → Option String → Option ℕ → List Caller → List Caller
unfolding select is_visible is_bound if_search call_matches
found_calls ilike user search bound calls =
    select
      (λ call.
        is_visible (tenant_context user) call.client_id
        && (is_bound bound call.client_id && if_search (call_matches ilike) search call))
      calls

-- GET /admin/calls
unfoldable pub list_calls :
    (String → String → Bool)
    → ℕ
    → ℕ
    → Option ℕ
    → Option String
    → Claims
    → List Caller
    → Reply (Paginated Caller)
unfolding guarded require_admin is_page bound_tenant found_calls listing
list_calls ilike page per_page tenant search user calls = guarded (require_admin user) (λ u.
    if is_page page per_page
    then guarded (bound_tenant u tenant)
        (λ bound. ok (listing page per_page (found_calls ilike u search bound calls)))
    else raised 422 "Invalid query")

unfoldable pub shown_call : Claims → Option Caller → Reply Caller
unfolding checked_row
shown_call user none = raised 404 "Call not found"
shown_call user (some call) = checked_row user call.client_id call

-- GET /admin/calls/{call_id}
unfoldable pub get_call : ℕ → Claims → List Caller → Reply Caller
unfolding guarded require_admin shown_call is_visible
get_call id user calls = guarded (require_admin user) (λ u.
    shown_call u
      (first (λ call. is_visible (tenant_context u) call.client_id && eqb call.id id) calls))
