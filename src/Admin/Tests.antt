-- ===== src/Admin/Tests.antt =====
-- services/api/src/routers/admin.py: the properties at concrete inputs. A super_admin who is a user, an agent
-- of the tenant 7, and the bootstrap administrator, who is no user.
use ai_calling_agent.Prelude.{
  ℕ, ◌≡◌, refl, String, true, false, ◌==◌, Option, none, some, List, [], ◌∷◌, arith, All,
}
use ai_calling_agent.Prelude.Rows.{first}
use ai_calling_agent.Accounts.Models.{
  Client, User, Accounts, pos, AuditLog, of_client, ok, raised, text_is,
}
use ai_calling_agent.Accounts.Tokens.{Claims, Expiry, get_current_user}
use ai_calling_agent.Accounts.Encoding.{plain_jwt, plain_bcrypt}
use ai_calling_agent.Accounts.Login.{LoginRequest, TokenResponse, Bootstrap, tokens, login}
use ai_calling_agent.Accounts.Scope.{tenant_context}
use ai_calling_agent.Paging.Sorting.{sorted, newest_rows}
use ai_calling_agent.Admin.Access.{require_super_admin}
use ai_calling_agent.Admin.Audit.{
  Stamp, client_audit_snapshot, audit_row, is_known_user, list_audit_logs,
}
use ai_calling_agent.Admin.Clients.{
  ClientCreate, ClientUpdate, create_as, update_as, delete_as, find_client, assigned, inactive,
  is_plan, slug_taken, insert_client, new_client,
}
use ai_calling_agent.Admin.Users.{UserCreate, UserUpdate, Draws, create_user, find_email}
use ai_calling_agent.Admin.Members.{update_user, delete_user}
use ai_calling_agent.Admin.Emails.{NoSharedEmail, users-NoSharedEmail}
use ai_calling_agent.Admin.Deletions.{delete_user-login}
use ai_calling_agent.Admin.Unserved.{create_as-unserved}
use ai_calling_agent.Admin.Trails.{super_admin_only}
use ai_calling_agent.Admin.AuditRows.{login_bootstrap-audit_logs}
use ai_calling_agent.Admin.Audited.{update_as-audit_logs}
use ai_calling_agent.Admin.Isolation.{IsOwn, list_audit_logs-All}

abbrev claims : String → String → Option ℕ → Claims
claims sub role tenant = record {
  sub = some sub;
  role = some role;
  exp = 900;
  token_type = some "access";
  email = some "a@x";
  full_name = some "A";
  client_id = tenant;
}

abbrev root : Claims
root = claims "u-0" "super_admin" none

abbrev manager : Claims
manager = claims "u-1" "tenant_admin" (some 7)

abbrev user : String → String → String → Option ℕ → User
user id email role tenant = record {
  id = id;
  email = email;
  full_name = "A";
  password_hash = some "password";
  role = some role;
  tenant_id = tenant;
  status = some "active";
  created_at = 1;
}

abbrev tenant_7 : Client
tenant_7 = record {
  id = 7;
  name = "Hotel";
  slug = some "hotel";
  plan = some "pro";
  status = some "active";
  contact_email = none;
  contact_phone = none;
  api_limit = none;
  max_concurrent_calls = none;
  created_at = 1;
  updated_at = 1;
  country = none;
  timezone = none;
  currency = none;
  default_language = none;
  phone_country_code = none;
}

abbrev db : Accounts
db = record {
  clients = tenant_7 ∷ [];
  users = user "u-0" "root@x" "super_admin" none ∷ user "u-1" "a@x" "tenant_admin" (some 7) ∷ [];
  customers = [];
  callers = [];
  audit_logs = [];
}

abbrev stamp : Stamp
stamp = record { fresh_id = "a-1"; now = 5 }

abbrev draws : Draws
draws = record { user_id = "u-2"; salt = "s"; stamp = stamp }

abbrev new_user_request : UserCreate
new_user_request = record {
  email = "b@x";
  full_name = "B";
  role = "agent";
  tenant_id = some 7;
  password = some "long enough";
}

abbrev promotion : UserUpdate
promotion = record { full_name = none; role = some "agent"; status = none; password = none }

abbrev new_client_request : ClientCreate
new_client_request = record {
  name = "Inn";
  slug = "inn";
  plan = "pro";
  contact_email = none;
  contact_phone = none;
  api_limit = pos 100;
  max_concurrent_calls = pos 10;
}

-- str() of a number, where the tests do not read it.
abbrev digits : ℕ → String
digits n = "7"

users-NoSharedEmail_example :
    NoSharedEmail (create_user plain_bcrypt digits draws new_user_request root db).1.users
    × NoSharedEmail (update_user plain_bcrypt digits draws "u-1" promotion root db).1.users
    × NoSharedEmail (delete_user stamp "u-1" root db).1.users
unfolding find_email first
users-NoSharedEmail_example =
    users-NoSharedEmail plain_bcrypt digits draws root "u-1" db new_user_request promotion
      (refl, (refl, tt))

abbrev gone : User
gone = record (user "u-1" "a@x" "tenant_admin" (some 7)) { status = some "suspended" }

abbrev after_deletion : Accounts
after_deletion = (delete_user stamp "u-1" root db).1

deleted : delete_user stamp "u-1" root db ≡ (ok gone, after_deletion)
unfolding delete_user first tenant_context
deleted = refl

abbrev bootstrap : Bootstrap
bootstrap = record { admin_email = "a@x"; password = "password"; full_name = "Root" }

abbrev expiry : Expiry
expiry = record { access_minutes = 1; refresh_minutes = 2 }

abbrev credentials : LoginRequest
credentials = record { email = "a@x"; password = "password" }

distinct : NoSharedEmail db.users
unfolding find_email first
distinct = (refl, (refl, tt))

delete_user-login_example :
    login plain_jwt plain_bcrypt expiry 100 bootstrap credentials after_deletion.users
    ≡ raised 401 "Invalid credentials"
delete_user-login_example =
    delete_user-login plain_jwt plain_bcrypt expiry stamp "u-1" root db after_deletion gone 100
      bootstrap credentials distinct deleted refl

not_super : text_is manager.role "super_admin" ≡ false
unfolding text_is
not_super = refl

super_admin_only_example :
    ((create_as "client.update" stamp 8 new_client_request manager db).1 ≡ db)
    × ((update_as "client.update" "Client not found" stamp 8 inactive manager db).1 ≡ db)
    × ((delete_as "client.update" "Client not found" stamp 8 manager db).1 ≡ db)
    × ((create_user plain_bcrypt digits draws new_user_request manager db).1 ≡ db)
    × ((update_user plain_bcrypt digits draws "u-1" promotion manager db).1 ≡ db)
    × ((delete_user stamp "u-1" manager db).1 ≡ db)
super_admin_only_example =
    super_admin_only plain_bcrypt digits draws "client.update" "Client not found" "u-1" 8 manager db
      new_client_request inactive new_user_request promotion not_super

abbrev renaming : ClientUpdate
renaming = record inactive { name = some "Grand"; status = none }

abbrev renamed : Client
renamed = record tenant_7 { name = "Grand"; updated_at = 5 }

abbrev after_renaming : Accounts
after_renaming = (update_as "client.update" "Client not found" stamp 7 renaming root db).1

renamed_ok :
    update_as "client.update" "Client not found" stamp 7 renaming root db
    ≡ (ok renamed, after_renaming)
unfolding update_as first tenant_context
renamed_ok = refl

root_known : is_known_user root.sub db.users ≡ true
unfolding is_known_user first
root_known = refl

no_logs : first (λ (other : AuditLog). other.audit_id == stamp.fresh_id) db.audit_logs ≡ none
unfolding first
no_logs = refl

update_as-audit_logs_example :
    (old : Client) × (find_client 7 db.clients ≡ some old)
    × (renamed ≡ assigned 5 renaming old)
    × (after_renaming.audit_logs
        ≡ audit_row stamp root "client.update"
            (some 7)
            (some (of_client (client_audit_snapshot old)))
            (some (of_client (client_audit_snapshot renamed)))
          ∷ [])
update_as-audit_logs_example =
    update_as-audit_logs stamp "client.update" "Client not found" 7 renaming root renamed db
      after_renaming root_known no_logs renamed_ok

abbrev break_glass : Bootstrap
break_glass = record { admin_email = "root@org"; password = "secret"; full_name = "Root" }

abbrev break_glass_login : LoginRequest
break_glass_login = record { email = "root@org"; password = "secret" }

abbrev pair : TokenResponse
pair = tokens plain_jwt plain_bcrypt expiry 100 "root@org" "super_admin" none "root@org" "Root"

logged_in : login plain_jwt plain_bcrypt expiry 100 break_glass break_glass_login db.users ≡ ok pair
unfolding login first
logged_in = refl

nobody : first (λ (u : User). u.email == break_glass_login.email) db.users ≡ none
unfolding first
nobody = refl

no_id : first (λ (u : User). u.id == break_glass_login.email) db.users ≡ none
unfolding first
no_id = refl

login_bootstrap-audit_logs_example :
    (c : Claims) × (get_current_user plain_jwt 110 (some pair.access_token) ≡ ok c)
    × (require_super_admin c ≡ ok c)
    × ((create_as "client.update" stamp 7 new_client_request c db).1.audit_logs ≡ [])
    × ((update_as "client.update" "Client not found" stamp 7 renaming c db).1.audit_logs ≡ [])
    × ((delete_as "client.update" "Client not found" stamp 7 c db).1.audit_logs ≡ [])
login_bootstrap-audit_logs_example =
    login_bootstrap-audit_logs plain_jwt plain_bcrypt expiry 100 110 break_glass break_glass_login
      pair stamp "client.update" "Client not found" 7 db new_client_request renaming nobody no_id
      logged_in (omega arith)

break_glass_claims_unknown :
    is_known_user (claims "root@org" "super_admin" none).sub db.users ≡ false
unfolding is_known_user first
break_glass_claims_unknown = refl

abbrev inn : Client
inn = new_client 5 8 new_client_request

abbrev with_inn : Accounts
with_inn = record db { clients = inn ∷ db.clients }

inn_stored : insert_client inn db ≡ (ok inn, with_inn)
unfolding insert_client first new_client
inn_stored = refl

create_as-unserved_example :
    (create_as "client.create" stamp 8 new_client_request (claims "root@org" "super_admin" none) db
      ≡ (raised 500 "Internal Server Error", with_inn))
    × (create_as "client.create" stamp 9 new_client_request
          (claims "root@org" "super_admin" none)
          with_inn
        ≡ (raised 409 "Slug already exists", with_inn))
unfolding is_plan slug_taken first text_is
create_as-unserved_example =
    create_as-unserved stamp stamp "client.create" 8 9 new_client_request
      (claims "root@org" "super_admin" none) inn db with_inn refl break_glass_claims_unknown refl
      refl inn_stored

abbrev log : String → Option ℕ → AuditLog
log id tenant = audit_row (record { fresh_id = id; now = 5 }) root "client.update" tenant none none

abbrev logs : List AuditLog
logs = log "a-1" (some 7) ∷ log "a-2" none ∷ log "a-3" (some 9) ∷ []

shown :
    list_audit_logs (newest_rows (λ log. log.occurred_at)) 1 20 (some 9) none manager logs
    ≡ ok (record {
      items = log "a-1" (some 7) ∷ [];
      total = 1;
      page = 1;
      per_page = 20;
      total_pages = 1;
    })
unfolding list_audit_logs tenant_context sorted
shown = refl

manager_role : text_is manager.role "tenant_admin" ≡ true
unfolding text_is
manager_role = refl

list_audit_logs-All_example :
    All (λ (l : AuditLog). IsOwn manager l.tenant_id) (log "a-1" (some 7) ∷ [])
list_audit_logs-All_example =
    list_audit_logs-All (newest_rows (λ log. log.occurred_at)) 1 20 (some 9) none manager logs
      (record {
        items = log "a-1" (some 7) ∷ [];
        total = 1;
        page = 1;
        per_page = 20;
        total_pages = 1;
      })
      manager_role shown
