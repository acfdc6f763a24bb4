-- ===== src/Portal/Access.antt =====
-- services/api/src/routers/client.py: `_require_client`, `_require_client_admin` and `get_my_profile`.
use ai_calling_agent.Prelude.{
  ℕ, String, Bool, false, Option, none, some, List, [], ◌∷◌, eqb, one_of, if◌then◌else◌,
}
use ai_calling_agent.Prelude.Rows.{first}
use ai_calling_agent.Accounts.Models.{Client, Reply, ok, raised, text_is, guarded}
use ai_calling_agent.Accounts.Tokens.{Claims, role_permissions}
use ai_calling_agent.Accounts.Login.{or_default}

-- user.get("role") in the two roles of a client
unfoldable pub is_client_role : Option String → Bool
unfolding one_of
is_client_role none = false
is_client_role (some role) = one_of role ("tenant_admin" ∷ "agent" ∷ [])

-- The tenant that the token names; `not user.get("client_id")` is true of a missing one and of 0.
unfoldable pub client_of : Option ℕ → Option ℕ
client_of none = none
client_of (some n) = if eqb n 0 then none else some n

unfoldable pub require_client : Claims → Reply ℕ
unfolding is_client_role client_of
require_client user =
    if is_client_role user.role
    then elim (client_of user.client_id) [
      | none ↦ raised 403 "Token has no tenant assigned. Contact your administrator."
      | some id ↦ ok id
    ]
    else raised 403 "Client account required. Platform admins use /admin/*."

unfoldable pub admin_only : Option String → Reply ℕ → Reply ℕ
unfolding text_is
admin_only role (raised code detail) = raised code detail
admin_only role (ok id) =
    if text_is role "tenant_admin" then ok id else raised 403 "Client administrator role required."

unfoldable pub require_client_admin : Claims → Reply ℕ
unfolding require_client admin_only
require_client_admin user = admin_only user.role (require_client user)

-- The user's part of a ClientProfile, and the tenant's row.
pub record ClientProfile : Type 0 where
  pub user_id : String
  pub email : String
  pub full_name : String
  pub role : String
  pub permissions : List String
  pub tenant : Client

unfoldable pub profile : Claims → Option Client → Reply ClientProfile
unfolding or_default role_permissions
profile user none = raised 404 "Tenant not found"
profile user (some client) = ok (record {
  user_id = or_default user.sub "";
  email = or_default user.email "";
  full_name = or_default user.full_name "";
  role = or_default user.role "agent";
  permissions = role_permissions (or_default user.role "agent");
  tenant = client;
})

-- GET /client/me
unfoldable pub get_my_profile : Claims → List Client → Reply ClientProfile
unfolding guarded require_client profile
get_my_profile user clients =
    guarded (require_client user) (λ id. profile user (first (λ client. eqb client.id id) clients))
