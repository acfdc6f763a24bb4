-- ===== src/Accounts/Scope.antt =====
-- services/api/src/tenant.py: the tenant context of a request, and the row-level security policies of
-- services/api/alembic/versions/df467b3bdd3f_nk07_tenant_row_level_security.py that read it.
use ai_calling_agent.Prelude.{ℕ, Bool, true, false, ◌==◌, Option, none, some, eqb, if◌then◌else◌}
use ai_calling_agent.Accounts.Tokens.{Claims}
use ai_calling_agent.Accounts.Login.{or_default}

-- The values of `app.current_tenant`: the sentinel, the text of a tenant's number, or "".
pub data Context : Type 0 where
  all_tenants no_tenant : Context
  tenant : ℕ → Context

-- str(user.get("client_id") or "")
unfoldable pub context_of_client : Option ℕ → Context
context_of_client none = no_tenant
context_of_client (some n) = if eqb n 0 then no_tenant else tenant n

-- get_tenant_scoped_db
unfoldable pub tenant_context : Claims → Context
unfolding context_of_client or_default
tenant_context user =
    if or_default user.role "agent" == "super_admin"
    then all_tenants
    else context_of_client user.client_id

-- The policy `tenant_isolation` of a row with this tenant.
unfoldable pub is_visible : Context → Option ℕ → Bool
is_visible all_tenants row = true
is_visible no_tenant row = false
is_visible (tenant n) none = false
is_visible (tenant n) (some m) = eqb m n
