-- ===== src/Admin/Members.antt =====
-- services/api/src/routers/admin.py: the users that are listed, shown, changed and suspended.
use ai_calling_agent.Prelude.{
  ℕ, String, ◌&&◌, ◌==◌, Option, none, some, List, select, if◌then◌else◌,
}
use ai_calling_agent.Prelude.Rows.{first, set_where}
use ai_calling_agent.Accounts.Models.{User, Accounts, Reply, ok, raised, guarded, guarded_write}
use ai_calling_agent.Accounts.Columns.{set_field, set_value}
use ai_calling_agent.Accounts.Tokens.{Claims, Bcrypt}
use ai_calling_agent.Accounts.Scope.{tenant_context, is_visible}
use ai_calling_agent.Paging.{Paginated, is_page, listing}
use ai_calling_agent.Portal.Directory.{if_text, map_page}
use ai_calling_agent.Admin.Access.{
  require_super_admin, require_admin, bound_tenant, is_bound, checked_row,
}
use ai_calling_agent.Admin.Audit.{Stamp}
use ai_calling_agent.Admin.Tenants.{map_reply}
use ai_calling_agent.Admin.Users.{
  UserUpdate, UserResponse, user_to_response, is_user_role, is_user_status, is_password,
  is_storable_user, hash_of, Draws, audited_user, answered_user,
}

-- The users that a listing is of. There is no ORDER BY: the rows come in the order of the table.
unfoldable pub found_users :
    Claims → Option String → Option String → Option ℕ → List User → List User
unfolding select is_visible is_bound if_text
found_users user role status bound users =
    select
      (λ u.
        is_visible (tenant_context user) u.tenant_id
        && (is_bound bound u.tenant_id && (if_text role u.role && if_text status u.status)))
      users

-- GET /admin/users
unfoldable pub list_users :
    (ℕ → String)
    → ℕ
    → ℕ
    → Option ℕ
    → Option String
    → Option String
    → Claims
    → List User
    → Reply (Paginated UserResponse)
unfolding guarded require_admin is_page bound_tenant found_users listing map_page user_to_response
list_users digits page per_page tenant role status user users = guarded (require_admin user) (λ u.
    if is_page page per_page
    then guarded (bound_tenant u tenant) (λ bound. ok (
        map_page (user_to_response digits)
          (listing page per_page (found_users u role status bound users))))
    else raised 422 "Invalid query")

-- db.get(User, user_id), as the request sees the rows
unfoldable pub find_user : Claims → String → List User → Option User
unfolding is_visible
find_user user id users =
    first (λ u. is_visible (tenant_context user) u.tenant_id && u.id == id) users

unfoldable pub shown_user : Claims → Option User → Reply User
unfolding checked_row
shown_user user none = raised 404 "User not found"
shown_user user (some u) = checked_row user u.tenant_id u

-- GET /admin/users/{user_id}
unfoldable pub get_user : (ℕ → String) → String → Claims → List User → Reply UserResponse
unfolding guarded require_admin shown_user find_user map_reply user_to_response
get_user digits id user users =
    guarded (require_admin user)
      (λ u. map_reply (user_to_response digits) (shown_user u (find_user u id users)))

-- The assignments of PUT /admin/users/{user_id}.
unfoldable pub assign_user : Bcrypt → String → UserUpdate → User → User
unfolding set_value set_field hash_of
assign_user b salt body u = record u {
  full_name = set_value body.full_name u.full_name;
  password_hash = set_field (hash_of b salt body.password) u.password_hash;
  role = set_field body.role u.role;
  status = set_field body.status u.status;
}

-- The UPDATE of the user's row.
unfoldable pub store_user : (User → User) → User → Accounts → Reply User × Accounts
unfolding is_storable_user
store_user change u db =
    if is_storable_user (change u)
    then (
      ok (change u),
      record db { users = set_where (λ other. other.id == u.id) change db.users },
    )
    else (raised 500 "Internal Server Error", db)

unfoldable pub update_found_user :
    Bcrypt → Draws → UserUpdate → Claims → Accounts → Option User → Reply User × Accounts
unfolding is_user_role is_user_status store_user assign_user answered_user
update_found_user b d body actor db none = (raised 404 "User not found", db)
update_found_user b d body actor db (some u) =
    if is_user_role body.role
    then if is_user_status body.status
      then answered_user d.stamp actor "user.update" (some u)
          (store_user (assign_user b d.salt body) u db)
      else (raised 400 "status must be one of ['active', 'suspended']", db)
    else (raised 400 "role must be one of ['agent', 'super_admin', 'tenant_admin']", db)

-- PUT /admin/users/{user_id}
unfoldable pub update_user :
    Bcrypt
    → (ℕ → String)
    → Draws
    → String
    → UserUpdate
    → Claims
    → Accounts
    → Reply UserResponse × Accounts
unfolding guarded_write require_super_admin is_password update_found_user find_user map_reply
    user_to_response
update_user b digits d id body user db =
    let (r, db') = guarded_write (require_super_admin user) db (λ actor.
      if is_password body.password
      then update_found_user b d body actor db (find_user actor id db.users)
      else (raised 422 "Invalid password", db)) in
    (map_reply (user_to_response digits) r, db')

-- user.status = "suspended"
unfoldable pub suspended : User → User
suspended u = record u { status = some "suspended" }

unfoldable pub delete_found_user : Stamp → Claims → Accounts → Option User → Reply User × Accounts
unfolding store_user suspended audited_user
delete_found_user stamp actor db none = (raised 404 "User not found", db)
delete_found_user stamp actor db (some u) =
    audited_user stamp actor "user.delete" (some u) (store_user suspended u db)

-- DELETE /admin/users/{user_id}, which answers no content: the row here is the user after the change.
unfoldable pub delete_user : Stamp → String → Claims → Accounts → Reply User × Accounts
unfolding guarded_write require_super_admin delete_found_user find_user
delete_user stamp id user db =
    guarded_write (require_super_admin user) db
      (λ actor. delete_found_user stamp actor db (find_user actor id db.users))
