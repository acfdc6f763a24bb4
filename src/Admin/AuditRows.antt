-- ===== src/Admin/AuditRows.antt =====
-- services/api/src/routers/admin.py: the audit rows of the changes of clients, and the changes that leave none.
use ai_calling_agent.Prelude.{
  ℕ, ◌+◌, ◌*◌, ◌≤◌, ◌≡◌, refl, sym, ap, ◌∙◌, String, false, not, ◌&&◌, ◌==◌, Option, none, some,
  Bool-cases, inl, inr, if_keep,
}
use ai_calling_agent.Prelude.Rows.{first}
use ai_calling_agent.Accounts.Models.{Client, Accounts, Reply, ok, guarded_write-keep}
use ai_calling_agent.Accounts.Tokens.{Claims, Jwt, Bcrypt, Expiry, access_claims, get_current_user}
use ai_calling_agent.Accounts.Login.{
  LoginRequest, TokenResponse, Bootstrap, tokens, login, login_bootstrap,
}
use ai_calling_agent.Accounts.Sessions.{login-none, access_token-read}
use ai_calling_agent.Admin.Access.{require_super_admin}
use ai_calling_agent.Admin.Audit.{Stamp, is_known_user}
use ai_calling_agent.Admin.Clients.{
  ClientCreate, ClientUpdate, insert_client, new_client, store_client, audited, answered,
  create_checked, create_as, find_client, update_found, update_as, delete_found, delete_as,
  inactive,
}
use ai_calling_agent.Admin.Trails.{
  role-super_admin, logs, store_client-fit, insert_client-fit, audited-unknown, answered-state,
}

module _ (stamp : Stamp) (action : String) (actor : Claims) (db : Accounts)
    (unknown : is_known_user actor.sub db.users ≡ false) where
  abbrev Same : Reply Client × Accounts → Type 0
  Same r = logs r ≡ db.audit_logs

  stored-Same :
      (before : Option Client) (r : Reply Client × Accounts)
      → (logs r ≡ db.audit_logs) × (r.1.users ≡ db.users)
      → Same (audited stamp actor action before r)
  stored-Same before r same =
      audited-unknown stamp actor action before r (ap (is_known_user actor.sub) same.1 ∙ unknown)
      ∙ same.0

  answered-Same :
      (before : Option Client) (r : Reply Client × Accounts)
      → (logs r ≡ db.audit_logs) × (r.1.users ≡ db.users)
      → Same (answered stamp actor action before r)
  answered-Same before r same =
      ap (λ (x : Accounts). x.audit_logs) (answered-state stamp actor action before r)
      ∙ stored-Same before r same

  update_found-Same :
      (missing : String) (body : ClientUpdate) (found : Option Client)
      → Same (update_found action missing stamp body actor db found)
  unfolding update_found
  update_found-Same missing body none = refl
  update_found-Same missing body (some c) =
      let made =
        answered-Same (some c) (store_client stamp.now body c db)
          (store_client-fit stamp.now body c db) in
      let same : db.audit_logs ≡ db.audit_logs = refl in search (if_keep Same, made, same)

  delete_found-Same :
      (missing : String) (found : Option Client)
      → Same (delete_found action missing stamp actor db found)
  unfolding delete_found
  delete_found-Same missing none = refl
  delete_found-Same missing (some c) =
      stored-Same (some c) (store_client stamp.now inactive c db)
        (store_client-fit stamp.now inactive c db)

  created-Same :
      (fresh_id : ℕ) (body : ClientCreate)
      → Same
          (answered stamp actor action none (insert_client (new_client stamp.now fresh_id body) db))
  created-Same fresh_id body =
      answered-Same none (insert_client (new_client stamp.now fresh_id body) db)
        (insert_client-fit (new_client stamp.now fresh_id body) db)

  create_checked-Same :
      (fresh_id : ℕ) (body : ClientCreate)
      → Same (create_checked action stamp fresh_id body actor db)
  unfolding create_checked
  create_checked-Same fresh_id body =
      let made = created-Same fresh_id body in
      let same : db.audit_logs ≡ db.audit_logs = refl in search (if_keep Same, made, same)

unknown-actor :
    (user actor : Claims) (db : Accounts)
    → require_super_admin user ≡ ok actor
    → is_known_user user.sub db.users ≡ false
    → is_known_user actor.sub db.users ≡ false
unknown-actor user actor db h unknown =
    ap (λ (c : Claims). is_known_user c.sub db.users) ((role-super_admin user actor h).1) ∙ unknown

-- A change of a client by a token whose subject is the id of no user leaves no audit row.
no_subject :
    (stamp : Stamp) (action missing : String) (id : ℕ) (user : Claims) (db : Accounts)
    (new : ClientCreate) (change : ClientUpdate)
    → is_known_user user.sub db.users ≡ false
    → ((create_as action stamp id new user db).1.audit_logs ≡ db.audit_logs)
      × ((update_as action missing stamp id change user db).1.audit_logs ≡ db.audit_logs)
      × ((delete_as action missing stamp id user db).1.audit_logs ≡ db.audit_logs)
unfolding create_as update_as delete_as
no_subject stamp action missing id user db new change unknown = (
  guarded_write-keep (λ (x : Accounts). x.audit_logs ≡ db.audit_logs) (require_super_admin user) db
      _ refl
      (λ actor h.
        create_checked-Same stamp action actor db (unknown-actor user actor db h unknown) id new),
  guarded_write-keep (λ (x : Accounts). x.audit_logs ≡ db.audit_logs) (require_super_admin user) db
      _ refl
      (λ actor h.
        update_found-Same stamp action actor db (unknown-actor user actor db h unknown) missing
          change (find_client id db.clients)),
  guarded_write-keep (λ (x : Accounts). x.audit_logs ≡ db.audit_logs) (require_super_admin user) db
      _ refl
      (λ actor h.
        delete_found-Same stamp action actor db (unknown-actor user actor db h unknown) missing
          (find_client id db.clients)),
)

login_bootstrap-tokens :
    (j : Jwt) (b : Bcrypt) (e : Expiry) (now : ℕ) (boot : Bootstrap) (body : LoginRequest)
    (t : TokenResponse)
    → login_bootstrap j b e now boot body ≡ ok t
    → t ≡ tokens j b e now body.email "super_admin" none body.email boot.full_name
unfolding login_bootstrap
login_bootstrap-tokens j b e now boot body t h =
    elim (Bool-cases (
      not (boot.admin_email == "")
      && (not (boot.password == "")
          && (body.email == boot.admin_email && body.password == boot.password)))) [
            | inl y ↦ let h' = rw y at h in cc h'
            | inr n ↦ let h' = rw n at h in cc h'
          ]

bootstrap-unknown :
    (e : Expiry) (now : ℕ) (email full_name : String) (db : Accounts)
    → first (λ user. user.id == email) db.users ≡ none
    → is_known_user (access_claims e now email "super_admin" none email full_name).sub db.users
      ≡ false
unfolding is_known_user access_claims
bootstrap-unknown e now email full_name db h = rw h refl

bootstrap-super_admin :
    (e : Expiry) (now : ℕ) (email full_name : String)
    → require_super_admin (access_claims e now email "super_admin" none email full_name)
      ≡ ok (access_claims e now email "super_admin" none email full_name)
unfolding require_super_admin access_claims
bootstrap-super_admin e now email full_name = refl

token-read :
    (j : Jwt) (b : Bcrypt) (e : Expiry) (now later : ℕ) (email full_name : String)
    → later ≤ now + e.access_minutes * 60
    → get_current_user j later
        (some (tokens j b e now email "super_admin" none email full_name).access_token)
      ≡ ok (access_claims e now email "super_admin" none email full_name)
unfolding tokens
token-read j b e now later email full_name h =
    access_token-read j e now later email "super_admin" none email full_name h

-- What the bootstrap administrator does with clients is not audited: whoever logs in by the configured
-- address and password gets a super_admin's token whose subject is that address, and, since no user has it
-- as an id, no change of a client that is made with the token leaves an audit row.
pub login_bootstrap-audit_logs :
    (j : Jwt) (b : Bcrypt) (e : Expiry) (now later : ℕ) (boot : Bootstrap) (body : LoginRequest)
    (t : TokenResponse) (stamp : Stamp) (action missing : String) (id : ℕ) (db : Accounts)
    (new : ClientCreate) (change : ClientUpdate)
    → first (λ user. user.email == body.email) db.users ≡ none
    → first (λ user. user.id == body.email) db.users ≡ none
    → login j b e now boot body db.users ≡ ok t
    → later ≤ now + e.access_minutes * 60
    → (c : Claims) × (get_current_user j later (some t.access_token) ≡ ok c)
      × (require_super_admin c ≡ ok c)
      × ((create_as action stamp id new c db).1.audit_logs ≡ db.audit_logs)
      × ((update_as action missing stamp id change c db).1.audit_logs ≡ db.audit_logs)
      × ((delete_as action missing stamp id c db).1.audit_logs ≡ db.audit_logs)
login_bootstrap-audit_logs j b e now later boot body t stamp action missing id db new change nobody
      no_id h in_time =
    let same =
      login_bootstrap-tokens j b e now boot body t
        (sym (login-none j b e now boot body db.users nobody) ∙ h) in
    let c = access_claims e now body.email "super_admin" none body.email boot.full_name in
    let (x, y, z) =
      no_subject stamp action missing id c db new change
        (bootstrap-unknown e now body.email boot.full_name db no_id) in
    (
      c,
      ap (λ (r : TokenResponse). get_current_user j later (some r.access_token)) same
          ∙ token-read j b e now later body.email boot.full_name in_time,
      bootstrap-super_admin e now body.email boot.full_name,
      x,
      y,
      z,
    )
