-- ===== src/Admin/Emails.antt =====
-- services/api/src/routers/admin.py with services/api/src/main.py: the e-mail addresses of users after the
-- handlers that write users, and the login of a user who was deleted.
use ai_calling_agent.Prelude.{
  if_keep, ℕ, ◌≡◌, refl, ap, ◌∙◌, String, Bool, true, ◌==◌, Option, none, some, List, [], ◌∷◌,
  arith, Bool-cases, inl, inr, and_both, not_found,
}
use ai_calling_agent.Prelude.Rows.{set_where, first-set_where}
use ai_calling_agent.Accounts.Models.{
  User, Accounts, Snapshot, Reply, ok, raised, guarded_write-keep,
}
use ai_calling_agent.Accounts.Tokens.{Claims, Bcrypt}
use ai_calling_agent.Admin.Access.{require_super_admin}
use ai_calling_agent.Admin.Audit.{Stamp, write_audit_log}
use ai_calling_agent.Admin.Users.{
  UserCreate, UserUpdate, Draws, is_storable_user, find_email, is_insertable_user, insert_user,
  new_user, audited_user, answered_user, create_checked, create_user, is_password,
}
use ai_calling_agent.Admin.Members.{
  find_user, assign_user, store_user, update_found_user, update_user, suspended, delete_found_user,
  delete_user,
}

-- No two users have the same address.
abbrev pub NoSharedEmail : List User → Type 0
NoSharedEmail [] = Unit
NoSharedEmail (u ∷ us) = (find_email u.email us ≡ none) × NoSharedEmail us

module _ (test : User → Bool) (change : User → User)
    (same : (u : User) → (change u).email ≡ u.email) where
  find_email-set_where :
      (email : String) (us : List User)
      → find_email email us ≡ none
      → find_email email (set_where test change us) ≡ none
  unfolding find_email
  find_email-set_where email us h =
      first-set_where (λ u. u.email == email) test change us
        (λ u. ap (λ (e : String). e == email) (same u))
      ∙ (rw h refl)

  set_where-NoSharedEmail :
      (us : List User) → NoSharedEmail us → NoSharedEmail (set_where test change us)
  unfolding set_where
  set_where-NoSharedEmail [] h = tt
  set_where-NoSharedEmail (u ∷ us) h =
      let rest = set_where-NoSharedEmail us h.1 in
      elim (Bool-cases (test u)) [
        | inl e ↦ rw (e, same u) (find_email-set_where u.email us h.0, rest)
        | inr e ↦ rw e (find_email-set_where u.email us h.0, rest)
      ]

write_audit_log-users :
    (stamp : Stamp) (actor : Claims) (action : String) (tenant : Option ℕ)
    (before after : Option Snapshot) (db : Accounts)
    → (write_audit_log stamp actor action tenant before after db).users ≡ db.users
unfolding write_audit_log
write_audit_log-users stamp actor action tenant before after db = ground arith

pub audited_user-users :
    (stamp : Stamp) (actor : Claims) (action : String) (before : Option User)
    (r : Reply User × Accounts)
    → (audited_user stamp actor action before r).1.users ≡ r.1.users
unfolding audited_user
audited_user-users stamp actor action before (raised code detail, db) = refl
audited_user-users stamp actor action none (ok u, db) =
    write_audit_log-users stamp actor action _ _ _ db
audited_user-users stamp actor action (some old) (ok u, db) =
    write_audit_log-users stamp actor action _ _ _ db

answered_user-users :
    (stamp : Stamp) (actor : Claims) (action : String) (before : Option User)
    (r : Reply User × Accounts)
    → (answered_user stamp actor action before r).1.users ≡ r.1.users
unfolding answered_user
answered_user-users stamp actor action before (raised code detail, db) = refl
answered_user-users stamp actor action before (ok u, db) =
    audited_user-users stamp actor action before (ok u, db)

store_user-NoSharedEmail :
    (change : User → User) (u : User) (db : Accounts)
    → ((v : User) → (change v).email ≡ v.email)
    → NoSharedEmail db.users
    → NoSharedEmail (store_user change u db).1.users
unfolding store_user
store_user-NoSharedEmail change u db same h = elim (Bool-cases (is_storable_user (change u))) [
  | inl e ↦ rw e (set_where-NoSharedEmail (λ other. other.id == u.id) change same db.users h)
  | inr e ↦ rw e h
]

insertable-email :
    (u : User) (db : Accounts) → is_insertable_user u db ≡ true → find_email u.email db.users ≡ none
unfolding is_insertable_user
insertable-email u db h =
    let (_, h1) = and_both _ _ h in
    let (_, h2) = and_both _ _ h1 in not_found _ ((and_both _ _ h2).0)

insert_user-NoSharedEmail :
    (u : User) (db : Accounts) → NoSharedEmail db.users → NoSharedEmail (insert_user u db).1.users
unfolding insert_user
insert_user-NoSharedEmail u db h = elim (Bool-cases (is_insertable_user u db)) [
  | inl e ↦ rw e (insertable-email u db e, h)
  | inr e ↦ rw e h
]

abbrev Kept : Reply User × Accounts → Type 0
Kept r = NoSharedEmail r.1.users

assign_user-email :
    (b : Bcrypt) (salt : String) (body : UserUpdate) (u : User)
    → (assign_user b salt body u).email ≡ u.email
unfolding assign_user
assign_user-email b salt body u = refl

pub suspended-email : (u : User) → (suspended u).email ≡ u.email
unfolding suspended
suspended-email u = refl

create_checked-NoSharedEmail :
    (b : Bcrypt) (d : Draws) (body : UserCreate) (actor : Claims) (db : Accounts)
    → NoSharedEmail db.users
    → NoSharedEmail (create_checked b d body actor db).1.users
unfolding create_checked
create_checked-NoSharedEmail b d body actor db h =
    let made : NoSharedEmail
        (answered_user d.stamp actor "user.create" none
          (insert_user (new_user b d body) db)).1.users =
      rw (answered_user-users d.stamp actor "user.create" none (insert_user (new_user b d body) db))
        (insert_user-NoSharedEmail (new_user b d body) db h) in
    search (if_keep Kept, made, h)

answered-NoSharedEmail :
    (stamp : Stamp) (actor : Claims) (action : String) (old u : User) (change : User → User)
    (db : Accounts)
    → ((v : User) → (change v).email ≡ v.email)
    → NoSharedEmail db.users
    → NoSharedEmail (answered_user stamp actor action (some old) (store_user change u db)).1.users
answered-NoSharedEmail stamp actor action old u change db same h =
    rw (answered_user-users stamp actor action (some old) (store_user change u db))
      (store_user-NoSharedEmail change u db same h)

changed-NoSharedEmail :
    (stamp : Stamp) (actor : Claims) (action : String) (old u : User) (change : User → User)
    (db : Accounts)
    → ((v : User) → (change v).email ≡ v.email)
    → NoSharedEmail db.users
    → NoSharedEmail (audited_user stamp actor action (some old) (store_user change u db)).1.users
changed-NoSharedEmail stamp actor action old u change db same h =
    rw (audited_user-users stamp actor action (some old) (store_user change u db))
      (store_user-NoSharedEmail change u db same h)

update_found_user-NoSharedEmail :
    (b : Bcrypt) (d : Draws) (body : UserUpdate) (actor : Claims) (db : Accounts)
    (found : Option User)
    → NoSharedEmail db.users
    → NoSharedEmail (update_found_user b d body actor db found).1.users
unfolding update_found_user
update_found_user-NoSharedEmail b d body actor db none h = h
update_found_user-NoSharedEmail b d body actor db (some u) h =
    let made =
      answered-NoSharedEmail d.stamp actor "user.update" u u (assign_user b d.salt body) db
        (assign_user-email b d.salt body) h in
    search (if_keep Kept, made, h)

delete_found_user-NoSharedEmail :
    (stamp : Stamp) (actor : Claims) (db : Accounts) (found : Option User)
    → NoSharedEmail db.users
    → NoSharedEmail (delete_found_user stamp actor db found).1.users
unfolding delete_found_user
delete_found_user-NoSharedEmail stamp actor db none h = h
delete_found_user-NoSharedEmail stamp actor db (some u) h =
    changed-NoSharedEmail stamp actor "user.delete" u u suspended db suspended-email h

-- The addresses of the users stay distinct under POST, PUT and DELETE of /admin/users, on every branch.
pub users-NoSharedEmail :
    (b : Bcrypt) (digits : ℕ → String) (d : Draws) (user : Claims) (id : String) (db : Accounts)
    (new : UserCreate) (change : UserUpdate)
    → NoSharedEmail db.users
    → NoSharedEmail (create_user b digits d new user db).1.users
      × NoSharedEmail (update_user b digits d id change user db).1.users
      × NoSharedEmail (delete_user d.stamp id user db).1.users
unfolding create_user update_user delete_user
users-NoSharedEmail b digits d user id db new change h = (
  guarded_write-keep (λ (x : Accounts). NoSharedEmail x.users) (require_super_admin user) db _ h
      (λ actor _.
        if_keep Kept (is_password new.password) (create_checked b d new actor db)
          (raised 422 "Invalid password", db) (create_checked-NoSharedEmail b d new actor db h) h),
  guarded_write-keep (λ (x : Accounts). NoSharedEmail x.users) (require_super_admin user) db _ h
      (λ actor _.
        if_keep Kept (is_password change.password)
          (update_found_user b d change actor db (find_user actor id db.users))
          (raised 422 "Invalid password", db)
          (update_found_user-NoSharedEmail b d change actor db _ h) h),
  guarded_write-keep (λ (x : Accounts). NoSharedEmail x.users) (require_super_admin user) db _ h
      (λ actor _. delete_found_user-NoSharedEmail d.stamp actor db (find_user actor id db.users) h),
)
