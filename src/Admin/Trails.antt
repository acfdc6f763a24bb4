-- ===== src/Admin/Trails.antt =====
-- services/api/src/routers/admin.py: who may change anything, and what the audit rows say of the changes.
use ai_calling_agent.Prelude.{
  ℕ, ◌≡◌, refl, ap, String, true, false, ◌==◌, Option, none, some, List, ◌∷◌, arith, Bool-cases,
  inl, inr,
}
use ai_calling_agent.Prelude.Rows.{first}
use ai_calling_agent.Accounts.Models.{
  Client, Accounts, Snapshot, AuditLog, Reply, ok, raised, text_is, guarded_write,
  guarded_write-keep,
}
use ai_calling_agent.Accounts.Tokens.{Claims, Bcrypt}
use ai_calling_agent.Accounts.Login.{or_default}
use ai_calling_agent.Accounts.Scope.{all_tenants, tenant_context}
use ai_calling_agent.Admin.Access.{require_super_admin}
use ai_calling_agent.Admin.Audit.{Stamp, is_known_user, is_recordable, audit_row, write_audit_log}
use ai_calling_agent.Admin.Clients.{
  ClientCreate, ClientUpdate, insert_client, store_client, audited, answered, create_as, update_as,
  delete_as, is_storable, assign,
}
use ai_calling_agent.Admin.Users.{UserCreate, UserUpdate, Draws, create_user}
use ai_calling_agent.Admin.Members.{update_user, delete_user}

pub role-super_admin :
    (user actor : Claims)
    → require_super_admin user ≡ ok actor
    → (text_is user.role "super_admin" ≡ true) × (actor ≡ user)
unfolding require_super_admin
role-super_admin user actor h = elim (Bool-cases (text_is user.role "super_admin")) [
  | inl y ↦ let h' = rw y at h in (y, cc h')
  | inr n ↦ let h' = rw n at h in cc h'
]

-- A guard that refuses leaves the state.
refused-same {ℓ} :
    {A : Type ℓ} (user : Claims) (db : Accounts) (handler : Claims → Reply A × Accounts)
    → text_is user.role "super_admin" ≡ false
    → (guarded_write (require_super_admin user) db handler).1 ≡ db
refused-same user db handler n =
    guarded_write-keep (λ x. x ≡ db) (require_super_admin user) db handler refl
      (λ actor h. cc ((role-super_admin user actor h).0, n))

-- Only a super_admin's token changes anything under /admin: with any other, each of the handlers that write
-- clients or users leaves every table as it was, the audit rows included.
pub super_admin_only :
    (b : Bcrypt) (digits : ℕ → String) (d : Draws) (action missing id : String) (number : ℕ)
    (user : Claims) (db : Accounts) (client : ClientCreate) (change : ClientUpdate)
    (new : UserCreate) (edit : UserUpdate)
    → text_is user.role "super_admin" ≡ false
    → ((create_as action d.stamp number client user db).1 ≡ db)
      × ((update_as action missing d.stamp number change user db).1 ≡ db)
      × ((delete_as action missing d.stamp number user db).1 ≡ db)
      × ((create_user b digits d new user db).1 ≡ db)
      × ((update_user b digits d id edit user db).1 ≡ db)
      × ((delete_user d.stamp id user db).1 ≡ db)
unfolding create_as update_as delete_as create_user update_user delete_user
super_admin_only b digits d action missing id number user db client change new edit n = (
  refused-same user db _ n,
  refused-same user db _ n,
  refused-same user db _ n,
  refused-same user db _ n,
  refused-same user db _ n,
  refused-same user db _ n,
)

super_admin-default :
    (role : Option String)
    → text_is role "super_admin" ≡ true
    → (or_default role "agent" == "super_admin") ≡ true
unfolding text_is or_default
super_admin-default none h = cc
super_admin-default (some role) h = h

pub super_admin-context :
    (user : Claims) → text_is user.role "super_admin" ≡ true → tenant_context user ≡ all_tenants
unfolding tenant_context
super_admin-context user h = rw (super_admin-default user.role h) refl

recordable :
    (stamp : Stamp) (actor : Claims) (tenant : Option ℕ) (db : Accounts)
    → tenant_context actor ≡ all_tenants
    → is_known_user actor.sub db.users ≡ true
    → first (λ other. other.audit_id == stamp.fresh_id) db.audit_logs ≡ none
    → is_recordable stamp actor tenant db ≡ true
unfolding is_recordable
recordable stamp actor tenant db ctx known fresh = rw (fresh, known, ctx) refl

pub unrecordable :
    (stamp : Stamp) (actor : Claims) (tenant : Option ℕ) (db : Accounts)
    → is_known_user actor.sub db.users ≡ false
    → is_recordable stamp actor tenant db ≡ false
unfolding is_recordable
unrecordable stamp actor tenant db unknown = ground arith

pub write_audit_log-known :
    (stamp : Stamp) (actor : Claims) (action : String) (tenant : Option ℕ)
    (before after : Option Snapshot) (db : Accounts)
    → tenant_context actor ≡ all_tenants
    → is_known_user actor.sub db.users ≡ true
    → first (λ other. other.audit_id == stamp.fresh_id) db.audit_logs ≡ none
    → (write_audit_log stamp actor action tenant before after db).audit_logs
      ≡ audit_row stamp actor action tenant before after ∷ db.audit_logs
unfolding write_audit_log
write_audit_log-known stamp actor action tenant before after db ctx known fresh =
    rw (recordable stamp actor tenant db ctx known fresh) refl

write_audit_log-unknown :
    (stamp : Stamp) (actor : Claims) (action : String) (tenant : Option ℕ)
    (before after : Option Snapshot) (db : Accounts)
    → is_known_user actor.sub db.users ≡ false
    → write_audit_log stamp actor action tenant before after db ≡ db
unfolding write_audit_log
write_audit_log-unknown stamp actor action tenant before after db unknown =
    rw (unrecordable stamp actor tenant db unknown) refl

-- The state that an audited change leaves, with its rows as they were before the audit.
abbrev pub logs : Reply Client × Accounts → List AuditLog
logs r = r.1.audit_logs

pub store_client-fit :
    (now : ℕ) (body : ClientUpdate) (c : Client) (db : Accounts)
    → (logs (store_client now body c db) ≡ db.audit_logs)
      × ((store_client now body c db).1.users ≡ db.users)
unfolding store_client
store_client-fit now body c db = elim (Bool-cases (is_storable (assign body c))) [
  | inl y ↦ rw y (refl, refl)
  | inr n ↦ rw n (refl, refl)
]

pub insert_client-fit :
    (c : Client) (db : Accounts)
    → (logs (insert_client c db) ≡ db.audit_logs) × ((insert_client c db).1.users ≡ db.users)
unfolding insert_client
insert_client-fit c db = ground arith

pub audited-unknown :
    (stamp : Stamp) (actor : Claims) (action : String) (before : Option Client)
    (r : Reply Client × Accounts)
    → is_known_user actor.sub r.1.users ≡ false
    → logs (audited stamp actor action before r) ≡ logs r
unfolding audited
audited-unknown stamp actor action before (raised code detail, db) h = refl
audited-unknown stamp actor action none (ok c, db) h =
    ap (λ (x : Accounts). x.audit_logs) (write_audit_log-unknown stamp actor action _ _ _ db h)
audited-unknown stamp actor action (some old) (ok c, db) h =
    ap (λ (x : Accounts). x.audit_logs) (write_audit_log-unknown stamp actor action _ _ _ db h)

-- The answer does not change what is left.
pub answered-state :
    (stamp : Stamp) (actor : Claims) (action : String) (before : Option Client)
    (r : Reply Client × Accounts)
    → (answered stamp actor action before r).1 ≡ (audited stamp actor action before r).1
unfolding answered audited
answered-state stamp actor action before (raised code detail, db) = refl
answered-state stamp actor action before (ok c, db) = refl
