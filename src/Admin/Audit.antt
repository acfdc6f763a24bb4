-- ===== src/Admin/Audit.antt =====
-- services/api/src/routers/admin.py: the snapshots of a client and of a user, `_write_audit_log`, and
-- `list_audit_logs`.
use ai_calling_agent.Prelude.{
  ℕ, String, Bool, true, false, not, ◌&&◌, ◌==◌, Option, none, some, List, ◌∷◌, is_some, select,
  if◌then◌else◌,
}
use ai_calling_agent.Prelude.Rows.{first}
use ai_calling_agent.Accounts.Models.{
  Client, User, ClientSnapshot, UserSnapshot, Snapshot, AuditLog, Accounts, Reply, ok, raised,
  guarded,
}
use ai_calling_agent.Accounts.Tokens.{Claims}
use ai_calling_agent.Accounts.Scope.{tenant_context, is_visible}
use ai_calling_agent.Paging.{Paginated, is_page, listing, NewestFirst}
use ai_calling_agent.Portal.Directory.{if_text}
use ai_calling_agent.Admin.Access.{require_admin, bound_tenant, is_bound}

unfoldable pub client_audit_snapshot : Client → ClientSnapshot
client_audit_snapshot c = record {
  id = c.id;
  name = c.name;
  slug = c.slug;
  plan = c.plan;
  status = c.status;
  contact_email = c.contact_email;
  contact_phone = c.contact_phone;
  api_limit = c.api_limit;
  max_concurrent_calls = c.max_concurrent_calls;
}

-- Without the password's hash.
unfoldable pub user_audit_snapshot : User → UserSnapshot
user_audit_snapshot u = record {
  user_id = u.id;
  email = u.email;
  full_name = u.full_name;
  role = u.role;
  tenant_id = u.tenant_id;
  status = u.status;
}

-- The foreign key `audit_logs.user_id → admin_users.id` allows the value.
unfoldable pub is_known_user : Option String → List User → Bool
is_known_user none users = true
is_known_user (some id) users = is_some (first (λ u. u.id == id) users)

-- The id and the time of a row that the database or the model's default makes.
pub record Stamp : Type 0 where
  pub fresh_id : String
  pub now : ℕ

-- The audit row of an action.
abbrev pub audit_row :
    Stamp → Claims → String → Option ℕ → Option Snapshot → Option Snapshot → AuditLog
audit_row stamp actor action tenant before after = record {
  audit_id = stamp.fresh_id;
  tenant_id = tenant;
  user_id = actor.sub;
  action = action;
  before_value = before;
  after_value = after;
  occurred_at = stamp.now;
}

-- The INSERT of an actor's row of a tenant meets the primary key, the foreign key and the WITH CHECK of
-- the policy.
unfoldable pub is_recordable : Stamp → Claims → Option ℕ → Accounts → Bool
unfolding is_known_user is_visible
is_recordable stamp actor tenant db =
    not (is_some (first (λ other. other.audit_id == stamp.fresh_id) db.audit_logs))
    && (is_known_user actor.sub db.users && is_visible (tenant_context actor) tenant)

-- A failure is logged and swallowed: the state is then as it was.
unfoldable pub write_audit_log :
    Stamp → Claims → String → Option ℕ → Option Snapshot → Option Snapshot → Accounts → Accounts
write_audit_log stamp actor action tenant before after db =
    if is_recordable stamp actor tenant db
    then record db { audit_logs = audit_row stamp actor action tenant before after ∷ db.audit_logs }
    else db

-- An answer that shows the changed row. Where the audit row was refused, the rollback of `_write_audit_log`
-- has expired the changed row, and to read it again outside of a query raises.
unfoldable pub serialised {ℓ} : {A : Type ℓ} → Bool → Reply A → Reply A
serialised recorded (raised code detail) = raised code detail
serialised true (ok a) = ok a
serialised false (ok a) = raised 500 "Internal Server Error"

-- The rows of audit_logs that a listing is of.
unfoldable pub found_logs : Claims → Option String → Option ℕ → List AuditLog → List AuditLog
unfolding select is_visible is_bound if_text
found_logs user action bound logs =
    select
      (λ log.
        is_visible (tenant_context user) log.tenant_id
        && (is_bound bound log.tenant_id && if_text action (some log.action)))
      logs

-- GET /admin/audit-logs
unfoldable pub list_audit_logs :
    NewestFirst AuditLog (λ log. log.occurred_at)
    → ℕ
    → ℕ
    → Option ℕ
    → Option String
    → Claims
    → List AuditLog
    → Reply (Paginated AuditLog)
unfolding guarded require_admin is_page bound_tenant found_logs listing
list_audit_logs order page per_page tenant action user logs = guarded (require_admin user) (λ u.
    if is_page page per_page
    then guarded (bound_tenant u tenant)
        (λ bound. ok (listing page per_page (order.sort (found_logs u action bound logs))))
    else raised 422 "Invalid query")
