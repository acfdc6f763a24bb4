-- ===== src/Admin/Users.antt =====
-- services/api/src/routers/admin.py: the handlers of /admin/users.
use Prim.Native.String.{count}
use ai_calling_agent.Prelude.{
  ℕ, String, Bool, true, not, ◌&&◌, ◌==◌, Option, none, some, List, [], ◌∷◌, leb, is_some, one_of,
  if◌then◌else◌,
}
use ai_calling_agent.Prelude.Rows.{first}
use ai_calling_agent.Accounts.Models.{
  Client, User, Accounts, of_user, Reply, ok, raised, guarded_write,
}
use ai_calling_agent.Accounts.Tokens.{Claims, Bcrypt, hash_password}
use ai_calling_agent.Jobs.Create.{fits}
use ai_calling_agent.Admin.Access.{require_super_admin}
use ai_calling_agent.Admin.Audit.{
  Stamp, user_audit_snapshot, is_recordable, write_audit_log, serialised,
}
use ai_calling_agent.Admin.Clients.{find_client}
use ai_calling_agent.Admin.Tenants.{map_reply}

-- The default of the role is filled in.
pub record UserCreate : Type 0 where
  pub email : String
  pub full_name : String
  pub role : String
  pub tenant_id : Option ℕ
  pub password : Option String

pub record UserUpdate : Type 0 where
  pub full_name : Option String
  pub role : Option String
  pub status : Option String
  pub password : Option String

pub record UserResponse : Type 0 where
  pub user_id : String
  pub email : String
  pub full_name : String
  pub role : Option String
  pub tenant_id : Option String
  pub status : Option String
  pub created_at : ℕ

-- `digits` is str() of a number.
unfoldable pub digits_of : (ℕ → String) → Option ℕ → Option String
digits_of digits none = none
digits_of digits (some n) = some (digits n)

unfoldable pub user_to_response : (ℕ → String) → User → UserResponse
unfolding digits_of
user_to_response digits u = record {
  user_id = u.id;
  email = u.email;
  full_name = u.full_name;
  role = u.role;
  tenant_id = digits_of digits u.tenant_id;
  status = u.status;
  created_at = u.created_at;
}

-- VALID_USER_ROLES, VALID_USER_STATUSES; a value that is not given passes.
unfoldable pub is_user_role : Option String → Bool
unfolding one_of
is_user_role none = true
is_user_role (some role) = one_of role ("super_admin" ∷ "tenant_admin" ∷ "agent" ∷ [])

unfoldable pub is_user_status : Option String → Bool
unfolding one_of
is_user_status none = true
is_user_status (some status) = one_of status ("active" ∷ "suspended" ∷ [])

-- min_length=8, max_length=72
unfoldable pub is_password : Option String → Bool
is_password none = true
is_password (some password) = leb 8 (count password) && leb (count password) 72

unfoldable pub find_email : String → List User → Option User
find_email email users = first (λ u. u.email == email) users

unfoldable pub tenant_exists : Option ℕ → List Client → Bool
unfolding find_client
tenant_exists none clients = true
tenant_exists (some id) clients = is_some (find_client id clients)

-- The widths and the CHECK constraints of admin_users.
unfoldable pub is_storable_user : User → Bool
unfolding fits is_user_role is_user_status
is_storable_user u =
    fits 255 (some u.email)
    && (fits 255 (some u.full_name)
        && (fits 255 u.password_hash && (is_user_role u.role && is_user_status u.status)))

-- hash_password(password) if password else None
unfoldable pub hash_of : Bcrypt → String → Option String → Option String
unfolding hash_password
hash_of b salt none = none
hash_of b salt (some password) = some (hash_password b salt password)

-- What a writing handler draws: the id and the salt of a user, and the stamp of the audit row.
pub record Draws : Type 0 where
  pub user_id : String
  pub salt : String
  pub stamp : Stamp

-- User(**fields), with the columns that the INSERT fills in.
unfoldable pub new_user : Bcrypt → Draws → UserCreate → User
unfolding hash_of
new_user b d body = record {
  id = d.user_id;
  email = body.email;
  full_name = body.full_name;
  password_hash = hash_of b d.salt body.password;
  role = some body.role;
  tenant_id = body.tenant_id;
  status = some "active";
  created_at = d.stamp.now;
}

-- The INSERT meets the primary key, the unique index on the email, and the foreign key to clients.
unfoldable pub is_insertable_user : User → Accounts → Bool
unfolding is_storable_user find_email tenant_exists
is_insertable_user u db =
    is_storable_user u
    && (not (is_some (first (λ other. other.id == u.id) db.users))
        && (not (is_some (find_email u.email db.users)) && tenant_exists u.tenant_id db.clients))

unfoldable pub insert_user : User → Accounts → Reply User × Accounts
unfolding is_insertable_user
insert_user u db =
    if is_insertable_user u db
    then (ok u, record db { users = u ∷ db.users })
    else (raised 500 "Internal Server Error", db)

-- The audit row of a handler that has committed its change; without one nothing is recorded.
unfoldable pub audited_user :
    Stamp → Claims → String → Option User → Reply User × Accounts → Reply User × Accounts
unfolding user_audit_snapshot write_audit_log
audited_user stamp actor action before (raised code detail, db) = (raised code detail, db)
audited_user stamp actor action none (ok u, db) = (
  ok u,
  write_audit_log stamp actor action u.tenant_id none (some (of_user (user_audit_snapshot u))) db,
)
audited_user stamp actor action (some old) (ok u, db) = (
  ok u,
  write_audit_log stamp actor action u.tenant_id (some (of_user (user_audit_snapshot old)))
      (some (of_user (user_audit_snapshot u))) db,
)

-- The audit row, and the answer with the changed user.
unfoldable pub answered_user :
    Stamp → Claims → String → Option User → Reply User × Accounts → Reply User × Accounts
unfolding audited_user serialised is_recordable
answered_user stamp actor action before (raised code detail, db) = (raised code detail, db)
answered_user stamp actor action before (ok u, db) = (
  serialised (is_recordable stamp actor u.tenant_id db) (ok u),
  (audited_user stamp actor action before (ok u, db)).1,
)

unfoldable pub create_checked :
    Bcrypt → Draws → UserCreate → Claims → Accounts → Reply User × Accounts
unfolding is_user_role find_email tenant_exists insert_user new_user answered_user
create_checked b d body actor db =
    if is_user_role (some body.role)
    then if is_some (find_email body.email db.users)
      then (raised 409 "Email already exists", db)
      else if tenant_exists body.tenant_id db.clients
      then answered_user d.stamp actor "user.create" none (insert_user (new_user b d body) db)
      else (raised 404 "Tenant not found", db)
    else (raised 400 "role must be one of ['agent', 'super_admin', 'tenant_admin']", db)

-- POST /admin/users
unfoldable pub create_user :
    Bcrypt → (ℕ → String) → Draws → UserCreate → Claims → Accounts → Reply UserResponse × Accounts
unfolding guarded_write require_super_admin is_password create_checked map_reply user_to_response
create_user b digits d body user db =
    let (r, db') = guarded_write (require_super_admin user) db (λ actor.
      if is_password body.password
      then create_checked b d body actor db
      else (raised 422 "Invalid password", db)) in
    (map_reply (user_to_response digits) r, db')
