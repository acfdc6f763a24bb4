-- ===== src/Admin/Deletions.antt =====
-- services/api/src/routers/admin.py with services/api/src/main.py: the login of a user who was deleted.
use ai_calling_agent.Prelude.{
  ℕ, ◌≡◌, refl, sym, ap, ◌∙◌, String, Bool, true, false, ◌&&◌, ◌==◌, eq_iff, eq_refl, Option, none,
  some, List, [], ◌∷◌, arith, Bool-cases, inl, inr,
}
use ai_calling_agent.Prelude.Rows.{first, set_where, first-set_where}
use ai_calling_agent.Accounts.Models.{User, Accounts, Reply, ok, raised, guarded_write-inv}
use ai_calling_agent.Accounts.Tokens.{Claims, Jwt, Bcrypt, Expiry}
use ai_calling_agent.Accounts.Login.{LoginRequest, Bootstrap, login, login_user}
use ai_calling_agent.Accounts.Sessions.{login-some}
use ai_calling_agent.Accounts.Scope.{tenant_context, is_visible}
use ai_calling_agent.Admin.Access.{require_super_admin}
use ai_calling_agent.Admin.Audit.{Stamp}
use ai_calling_agent.Admin.Users.{is_storable_user, find_email, audited_user}
use ai_calling_agent.Admin.Members.{
  find_user, store_user, suspended, delete_found_user, delete_user,
}
use ai_calling_agent.Admin.Emails.{NoSharedEmail, audited_user-users, suspended-email}

-- With distinct addresses, a user that some search finds is the one that its address finds.
find_email-found :
    (test : User → Bool) (us : List User) (v : User)
    → NoSharedEmail us
    → first test us ≡ some v
    → find_email v.email us ≡ some v
unfolding find_email first
find_email-found test [] v h e = cc
find_email-found test (u ∷ us) v h e = elim (Bool-cases (test u)) [
  | inl y ↦ let e' : some u ≡ some v = rw y at e in ground (arith, eq_refl u.email)
  | inr n ↦
      let e' : first test us ≡ some v = rw n at e in
      let ih = find_email-found test us v h.1 e' in ground (arith, eq_iff u.email v.email, h.0)
]

suspended-login_user :
    (j : Jwt) (b : Bcrypt) (e : Expiry) (now : ℕ) (password : String) (u : User)
    → login_user j b e now password (suspended u) ≡ raised 401 "Invalid credentials"
unfolding login_user suspended
suspended-login_user j b e now password u = refl

find_email-suspended :
    (us : List User) (v : User)
    → find_email v.email us ≡ some v
    → find_email v.email (set_where (λ other. other.id == v.id) suspended us) ≡ some (suspended v)
unfolding find_email
find_email-suspended us v h =
    first-set_where (λ u. u.email == v.email) (λ other. other.id == v.id) suspended us
      (λ u. ap (λ (e : String). e == v.email) (suspended-email u))
    ∙ (rw (h, eq_refl v.id) refl)

store_user-fit :
    (change : User → User) (u : User) (db : Accounts)
    → is_storable_user (change u) ≡ true
    → store_user change u db
      ≡ (ok (change u), record db { users = set_where (λ other. other.id == u.id) change db.users })
unfolding store_user
store_user-fit change u db y = rw y refl

store_user-wide :
    (change : User → User) (u : User) (db : Accounts)
    → is_storable_user (change u) ≡ false
    → store_user change u db ≡ (raised 500 "Internal Server Error", db)
unfolding store_user
store_user-wide change u db n = rw n refl

audited_user-reply :
    (stamp : Stamp) (actor : Claims) (action : String) (before : Option User)
    (r : Reply User × Accounts)
    → (audited_user stamp actor action before r).0 ≡ r.0
unfolding audited_user
audited_user-reply stamp actor action before (raised code detail, db) = refl
audited_user-reply stamp actor action none (ok u, db) = refl
audited_user-reply stamp actor action (some old) (ok u, db) = refl

find_user-first :
    (actor : Claims) (id : String) (us : List User) (v : User)
    → find_user actor id us ≡ some v
    → first (λ u. is_visible (tenant_context actor) u.tenant_id && u.id == id) us ≡ some v
unfolding find_user
find_user-first actor id us v h = h

find_email-first :
    (email : String) (us : List User) (v : User)
    → find_email email us ≡ some v
    → first (λ u. u.email == email) us ≡ some v
unfolding find_email
find_email-first email us v h = h

-- What a deletion that succeeds has done to the users.
deleted :
    (stamp : Stamp) (actor : Claims) (db : Accounts) (found : Option User) (u : User)
    (db' : Accounts)
    → delete_found_user stamp actor db found ≡ (ok u, db')
    → (v : User) × (found ≡ some v)
      × (u ≡ suspended v)
      × (db'.users ≡ set_where (λ other. other.id == v.id) suspended db.users)
unfolding delete_found_user
deleted stamp actor db none u db' h = cc
deleted stamp actor db (some v) u db' h =
    let k = audited_user-users stamp actor "user.delete" (some v) (store_user suspended v db) in
    let r = audited_user-reply stamp actor "user.delete" (some v) (store_user suspended v db) in
    elim (Bool-cases (is_storable_user (suspended v))) [
      | inl y ↦
          let s = store_user-fit suspended v db y in
          let answer : ok u ≡ ok (suspended v) =
            sym (ap (λ (x : Reply User × Accounts). x.0) h)
            ∙ r
            ∙ ap (λ (x : Reply User × Accounts). x.0) s in
          let rows : db'.users ≡ set_where (λ other. other.id == v.id) suspended db.users =
            sym (ap (λ (x : Reply User × Accounts). x.1.users) h)
            ∙ k
            ∙ ap (λ (x : Reply User × Accounts). x.1.users) s in
          (v, refl, cc answer, rows)
      | inr n ↦
          let s = store_user-wide suspended v db n in
          let answer : ok u ≡ raised 500 "Internal Server Error" =
            sym (ap (λ (x : Reply User × Accounts). x.0) h)
            ∙ r
            ∙ ap (λ (x : Reply User × Accounts). x.0) s in
          cc answer
    ]

there_suspended :
    (us us' : List User) (v : User) (email : String)
    → find_email v.email us ≡ some v
    → us' ≡ set_where (λ other. other.id == v.id) suspended us
    → email ≡ v.email
    → find_email email us' ≡ some (suspended v)
there_suspended us us' v email found rows same = rw (same, rows) (find_email-suspended us v found)

after_suspension :
    (j : Jwt) (b : Bcrypt) (e : Expiry) (later : ℕ) (boot : Bootstrap) (body : LoginRequest)
    (us us' : List User) (v : User)
    → find_email v.email us ≡ some v
    → us' ≡ set_where (λ other. other.id == v.id) suspended us
    → body.email ≡ v.email
    → login j b e later boot body us' ≡ raised 401 "Invalid credentials"
after_suspension j b e later boot body us us' v found rows same =
    login-some j b e later boot body us' (suspended v) (
      find_email-first body.email us' (suspended v)
        (there_suspended us us' v body.email found rows same))
    ∙ suspended-login_user j b e later body.password v

-- A user who was deleted cannot log in again: POST /auth/login answers 401 to the user's address with every
-- password, also where the address and the password are those of the bootstrap administrator.
pub delete_user-login :
    (j : Jwt) (b : Bcrypt) (e : Expiry) (stamp : Stamp) (id : String) (actor : Claims)
    (db db' : Accounts) (u : User) (later : ℕ) (boot : Bootstrap) (body : LoginRequest)
    → NoSharedEmail db.users
    → delete_user stamp id actor db ≡ (ok u, db')
    → body.email ≡ u.email
    → login j b e later boot body db'.users ≡ raised 401 "Invalid credentials"
unfolding delete_user
delete_user-login j b e stamp id actor db db' u later boot body distinct h same =
    let (a, _, h') = guarded_write-inv (require_super_admin actor) db _ u db' h in
    let (v, found, eu, rows) = deleted stamp a db (find_user a id db.users) u db' h' in
    after_suspension j b e later boot body db.users db'.users v
      (find_email-found _ db.users v distinct (find_user-first a id db.users v found)) rows
      (same ∙ ap (λ (x : User). x.email) eu ∙ suspended-email v)
