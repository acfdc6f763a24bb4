-- ===== src/Portal/Directory.antt =====
-- services/api/src/routers/client.py: `list_users`, `get_user` and `list_phone_numbers`.
use ai_calling_agent.Prelude.{
  ℕ, String, Bool, true, ◌&&◌, ◌==◌, Option, none, some, List, map, select, if◌then◌else◌,
}
use ai_calling_agent.Prelude.Rows.{first}
use ai_calling_agent.Models.{PhoneNumberRoute}
use ai_calling_agent.Accounts.Models.{User, Reply, ok, raised, number_is, text_is, guarded}
use ai_calling_agent.Accounts.Tokens.{Claims}
use ai_calling_agent.Accounts.Scope.{tenant_context, is_visible}
use ai_calling_agent.Paging.{Paginated, is_page, listing, NewestFirst}
use ai_calling_agent.Portal.Access.{require_client_admin}

pub record UserResponse : Type 0 where
  pub user_id : String
  pub email : String
  pub full_name : String
  pub role : Option String
  pub status : Option String
  pub created_at : ℕ

unfoldable pub user_response : User → UserResponse
user_response u = record {
  user_id = u.id;
  email = u.email;
  full_name = u.full_name;
  role = u.role;
  status = u.status;
  created_at = u.created_at;
}

-- The optional filter on a text column: `if role`.
unfoldable pub if_text : Option String → Option String → Bool
unfolding text_is
if_text none column = true
if_text (some s) column = if s == "" then true else text_is column s

unfoldable pub map_page {ℓ κ} : {A : Type ℓ} {B : Type κ} → (A → B) → Paginated A → Paginated B
map_page f p = record {
  items = map f p.items;
  total = p.total;
  page = p.page;
  per_page = p.per_page;
  total_pages = p.total_pages;
}

-- GET /client/users
unfoldable pub list_users :
    NewestFirst User (λ u. u.created_at)
    → ℕ
    → ℕ
    → Option String
    → Option String
    → Claims
    → List User
    → Reply (Paginated UserResponse)
unfolding guarded is_page is_visible number_is if_text listing map_page user_response select
list_users order page per_page role status user users = guarded (require_client_admin user) (λ id.
    if is_page page per_page
    then ok (
        map_page user_response (
          listing page per_page (
            order.sort (
              select
                (λ u.
                  is_visible (tenant_context user) u.tenant_id
                  && (number_is u.tenant_id id && (if_text role u.role && if_text status u.status)))
                users))))
    else raised 422 "Invalid query")

unfoldable pub own_user : ℕ → Option User → Reply UserResponse
unfolding number_is user_response
own_user id none = raised 404 "User not found"
own_user id (some u) =
    if number_is u.tenant_id id then ok (user_response u) else raised 404 "User not found"

-- GET /client/users/{user_id}
unfoldable pub get_user : String → Claims → List User → Reply UserResponse
unfolding guarded own_user is_visible
get_user user_id user users = guarded (require_client_admin user) (λ id.
    own_user id
      (first (λ u. is_visible (tenant_context user) u.tenant_id && u.id == user_id) users))

-- GET /client/phone-numbers. `digits` is str() of a number; no policy restricts this table.
unfoldable pub list_phone_numbers :
    (ℕ → String) → ℕ → ℕ → Claims → List PhoneNumberRoute → Reply (Paginated PhoneNumberRoute)
unfolding guarded is_page listing select
list_phone_numbers digits page per_page user routes = guarded (require_client_admin user) (λ id.
    if is_page page per_page
    then ok (listing page per_page (select (λ route. route.tenant_id == digits id) routes))
    else raised 422 "Invalid query")
