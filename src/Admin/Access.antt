-- ===== src/Admin/Access.antt =====
-- services/api/src/routers/admin.py: `_require_super_admin`, `_require_admin`, and the tenant that a listing is
-- bound to.
use ai_calling_agent.Prelude.{
  ℕ, String, Bool, true, false, Option, none, some, [], ◌∷◌, one_of, if◌then◌else◌,
}
use ai_calling_agent.Accounts.Models.{Reply, ok, raised, text_is, number_is}
use ai_calling_agent.Accounts.Tokens.{Claims}
use ai_calling_agent.Portal.Access.{client_of}

unfoldable pub require_super_admin : Claims → Reply Claims
unfolding text_is
require_super_admin user =
    if text_is user.role "super_admin" then ok user else raised 403 "super_admin role required"

unfoldable pub is_admin_role : Option String → Bool
unfolding one_of
is_admin_role none = false
is_admin_role (some role) = one_of role ("super_admin" ∷ "tenant_admin" ∷ [])

unfoldable pub require_admin : Claims → Reply Claims
unfolding is_admin_role
require_admin user = if is_admin_role user.role then ok user else raised 403 "admin role required"

-- The tenant of a tenant_admin's token, where it has one.
unfoldable pub own_tenant : Option ℕ → Reply (Option ℕ)
own_tenant none = raised 403 "tenant_admin token has no tenant assigned"
own_tenant (some id) = ok (some id)

-- The tenant that a listing is bound to: the token's for a tenant_admin, and else the one that the query
-- asks for, if any.
unfoldable pub bound_tenant : Claims → Option ℕ → Reply (Option ℕ)
unfolding text_is own_tenant client_of
bound_tenant user query =
    if text_is user.role "tenant_admin" then own_tenant (client_of user.client_id) else ok query

-- WHERE tenant = bound, if there is a bound
unfoldable pub is_bound : Option ℕ → Option ℕ → Bool
unfolding number_is
is_bound none row = true
is_bound (some id) row = number_is row id

unfoldable pub same_tenant : Option ℕ → Option ℕ → Bool
unfolding number_is
same_tenant none none = true
same_tenant none (some n) = false
same_tenant (some m) other = number_is other m

-- `user.get("role") == "tenant_admin" and row.tenant_id != user.get("client_id")` is refused.
unfoldable pub checked_row {ℓ} : {A : Type ℓ} → Claims → Option ℕ → A → Reply A
unfolding text_is same_tenant
checked_row user tenant row =
    if text_is user.role "tenant_admin"
    then if same_tenant tenant user.client_id then ok row else raised 403 "Access denied"
    else ok row
