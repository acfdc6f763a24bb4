-- ===== src/Admin/Audited.antt =====
-- services/api/src/routers/admin.py: the audit row that PUT /admin/clients/{client_id} writes.
use ai_calling_agent.Prelude.{
  ℕ, ◌≡◌, refl, sym, ap, ◌∙◌, String, Bool, true, false, ◌==◌, Option, none, some, ◌∷◌, eqb, arith,
  Bool-cases, inl, inr, if◌then◌else◌,
}
use ai_calling_agent.Prelude.Rows.{first, set_where}
use ai_calling_agent.Accounts.Models.{
  Client, Accounts, of_client, Reply, ok, raised, text_is, guarded_write-inv,
}
use ai_calling_agent.Accounts.Tokens.{Claims}
use ai_calling_agent.Admin.Access.{require_super_admin}
use ai_calling_agent.Admin.Audit.{
  Stamp, client_audit_snapshot, is_known_user, audit_row, write_audit_log, serialised,
}
use ai_calling_agent.Admin.Clients.{
  ClientUpdate, is_plan, is_client_status, slug_clash, store_client, audited, answered, find_client,
  update_found, update_as, is_storable, assign, assigned,
}
use ai_calling_agent.Admin.Trails.{role-super_admin, super_admin-context, write_audit_log-known}

module _ {ℓ κ} {A : Type ℓ} {S : Type κ} (a : A) (t : S) where
  -- A handler that answers `ok` has passed its checks.
  then-ok :
      (test : Bool) (x : Reply A × S) (code : ℕ) (detail : String) (s : S)
      → (if test then x else (raised code detail, s)) ≡ (ok a, t)
      → x ≡ (ok a, t)
  then-ok true x code detail s h = h
  then-ok false x code detail s h = cc

  else-ok :
      (test : Bool) (x : Reply A × S) (code : ℕ) (detail : String) (s : S)
      → (if test then (raised code detail, s) else x) ≡ (ok a, t)
      → x ≡ (ok a, t)
  else-ok true x code detail s h = cc
  else-ok false x code detail s h = h

audited-some :
    (stamp : Stamp) (actor : Claims) (action : String) (old c : Client) (db : Accounts)
    → audited stamp actor action (some old) (ok c, db) ≡ (
      ok c,
      write_audit_log stamp actor action
          (some c.id)
          (some (of_client (client_audit_snapshot old)))
          (some (of_client (client_audit_snapshot c)))
          db,
    )
unfolding audited
audited-some stamp actor action old c db = refl

audited-raised :
    (stamp : Stamp) (actor : Claims) (action : String) (old : Client) (code : ℕ) (detail : String)
    (db : Accounts)
    → audited stamp actor action (some old) (raised code detail, db) ≡ (raised code detail, db)
unfolding audited
audited-raised stamp actor action old code detail db = refl

-- The state after the UPDATE.
abbrev written : ℕ → ClientUpdate → Client → Accounts → Accounts
written now body old db = record db {
  clients = set_where (λ other. eqb other.id old.id) (assigned now body) db.clients;
}

store_client-ok :
    (now : ℕ) (body : ClientUpdate) (old : Client) (db : Accounts)
    → is_storable (assign body old) ≡ true
    → store_client now body old db ≡ (ok (assigned now body old), written now body old db)
unfolding store_client
store_client-ok now body old db y = rw y refl

store_client-raised :
    (now : ℕ) (body : ClientUpdate) (old : Client) (db : Accounts)
    → is_storable (assign body old) ≡ false
    → store_client now body old db ≡ (raised 500 "Internal Server Error", db)
unfolding store_client
store_client-raised now body old db n = rw n refl

stored-ok :
    (stamp : Stamp) (actor : Claims) (action : String) (body : ClientUpdate) (old c : Client)
    (db db' : Accounts)
    → audited stamp actor action (some old) (store_client stamp.now body old db) ≡ (ok c, db')
    → (c ≡ assigned stamp.now body old)
      × (db'
          ≡ write_audit_log stamp actor action
              (some (assigned stamp.now body old).id)
              (some (of_client (client_audit_snapshot old)))
              (some (of_client (client_audit_snapshot (assigned stamp.now body old))))
              (written stamp.now body old db))
stored-ok stamp actor action body old c db db' h =
    elim (Bool-cases (is_storable (assign body old))) [
      | inl y ↦
          let e =
            sym h
            ∙ ap (audited stamp actor action (some old)) (store_client-ok stamp.now body old db y)
            ∙ audited-some stamp actor action old (assigned stamp.now body old)
                (written stamp.now body old db) in
          let answer : ok c ≡ ok (assigned stamp.now body old) =
            ap (λ (r : Reply Client × Accounts). r.0) e in
          (cc answer, ap (λ (r : Reply Client × Accounts). r.1) e)
      | inr n ↦
          let e =
            sym h
            ∙ ap (audited stamp actor action (some old))
                (store_client-raised stamp.now body old db n)
            ∙ audited-raised stamp actor action old 500 "Internal Server Error" db in
          let answer : ok c ≡ raised 500 "Internal Server Error" =
            ap (λ (r : Reply Client × Accounts). r.0) e in
          cc answer
    ]

logged :
    (stamp : Stamp) (user actor : Claims) (action : String) (body : ClientUpdate) (old c : Client)
    (db db' : Accounts)
    → text_is user.role "super_admin" ≡ true
    → is_known_user user.sub db.users ≡ true
    → first (λ other. other.audit_id == stamp.fresh_id) db.audit_logs ≡ none
    → actor ≡ user
    → c ≡ assigned stamp.now body old
    → db'
      ≡ write_audit_log stamp actor action
          (some (assigned stamp.now body old).id)
          (some (of_client (client_audit_snapshot old)))
          (some (of_client (client_audit_snapshot (assigned stamp.now body old))))
          (written stamp.now body old db)
    → db'.audit_logs
      ≡ audit_row stamp user action
          (some c.id)
          (some (of_client (client_audit_snapshot old)))
          (some (of_client (client_audit_snapshot c)))
        ∷ db.audit_logs
logged stamp user actor action body old c db db' super known fresh who same state =
    ap (λ (x : Accounts). x.audit_logs) state
    ∙ ap
        (λ (x : Claims).
          (write_audit_log stamp x action (some (assigned stamp.now body old).id)
            (some (of_client (client_audit_snapshot old)))
            (some (of_client (client_audit_snapshot (assigned stamp.now body old))))
            (written stamp.now body old db)).audit_logs)
        who
    ∙ write_audit_log-known stamp user action _ _ _ (written stamp.now body old db)
        (super_admin-context user super) known fresh
    ∙ ap
        (λ (x : Client).
          audit_row stamp user action (some x.id) (some (of_client (client_audit_snapshot old)))
            (some (of_client (client_audit_snapshot x)))
          ∷ db.audit_logs)
        (sym same)

-- What was answered with a client was audited with it.
answered-ok :
    (stamp : Stamp) (actor : Claims) (action : String) (before : Option Client)
    (r : Reply Client × Accounts) (c : Client) (db' : Accounts)
    → answered stamp actor action before r ≡ (ok c, db')
    → audited stamp actor action before r ≡ (ok c, db')
unfolding answered serialised audited
answered-ok stamp actor action before (raised code detail, db) c db' h = h
answered-ok stamp actor action none (ok a, db) c db' h = ground arith
answered-ok stamp actor action (some old) (ok a, db) c db' h = ground arith

updated :
    (stamp : Stamp) (actor : Claims) (action missing : String) (body : ClientUpdate)
    (found : Option Client) (c : Client) (db db' : Accounts)
    → update_found action missing stamp body actor db found ≡ (ok c, db')
    → (old : Client) × (found ≡ some old)
      × (audited stamp actor action (some old) (store_client stamp.now body old db) ≡ (ok c, db'))
unfolding update_found
updated stamp actor action missing body none c db db' h = cc
updated stamp actor action missing body (some old) c db db' h =
    let known =
      then-ok c db' (is_plan body.plan) _ 400 "plan must be one of ['enterprise', 'pro', 'starter']"
        db h in
    let fitting =
      then-ok c db' (is_client_status body.status) _ 400
        "status must be one of ['active', 'inactive', 'suspended']" db known in
    (
      old,
      refl,
      answered-ok stamp actor action (some old) (store_client stamp.now body old db) c db' (
          else-ok c db' (slug_clash body.slug old.slug db.clients) _ 409 "Slug already exists" db
            fitting),
    )

-- A change of a client that succeeds, by a super_admin who is a user, adds exactly one audit row: with the
-- actor's id, the action, the client's tenant, and the client as it was before the change and as it is after
-- it, which is the row that the request found under the id, assigned the fields of the request.
pub update_as-audit_logs :
    (stamp : Stamp) (action missing : String) (id : ℕ) (body : ClientUpdate) (user : Claims)
    (c : Client) (db db' : Accounts)
    → is_known_user user.sub db.users ≡ true
    → first (λ other. other.audit_id == stamp.fresh_id) db.audit_logs ≡ none
    → update_as action missing stamp id body user db ≡ (ok c, db')
    → (old : Client) × (find_client id db.clients ≡ some old)
      × (c ≡ assigned stamp.now body old)
      × (db'.audit_logs
          ≡ audit_row stamp user action
              (some c.id)
              (some (of_client (client_audit_snapshot old)))
              (some (of_client (client_audit_snapshot c)))
            ∷ db.audit_logs)
unfolding update_as
update_as-audit_logs stamp action missing id body user c db db' known fresh h =
    let (actor, g, h') = guarded_write-inv (require_super_admin user) db _ c db' h in
    let (old, found, h'') =
      updated stamp actor action missing body (find_client id db.clients) c db db' h' in
    let (same, state) = stored-ok stamp actor action body old c db db' h'' in
    let (super, who) = role-super_admin user actor g in
    (
      old,
      found,
      same,
      logged stamp user actor action body old c db db' super known fresh who same state,
    )
