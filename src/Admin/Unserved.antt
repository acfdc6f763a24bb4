-- ===== src/Admin/Unserved.antt =====
-- services/api/src/routers/admin.py: the answer to a change whose audit row is refused.
use ai_calling_agent.Prelude.{
  ℕ, ◌≡◌, refl, sym, ap, ◌∙◌, String, true, false, none, some, arith, eq_refl,
}
use ai_calling_agent.Prelude.Rows.{first}
use ai_calling_agent.Accounts.Models.{
  Client, Accounts, Reply, ok, raised, text_is, guarded_write-ok,
}
use ai_calling_agent.Accounts.Tokens.{Claims}
use ai_calling_agent.Admin.Access.{require_super_admin}
use ai_calling_agent.Admin.Audit.{Stamp, is_known_user, serialised}
use ai_calling_agent.Admin.Clients.{
  ClientCreate, is_plan, slug_taken, insert_client, new_client, audited, answered, create_checked,
  create_as,
}
use ai_calling_agent.Admin.Trails.{insert_client-fit, unrecordable}

super_admin-ok :
    (user : Claims) → text_is user.role "super_admin" ≡ true → require_super_admin user ≡ ok user
unfolding require_super_admin
super_admin-ok user h = rw h refl

-- The change is kept, and the answer is an error.
answered-unknown :
    (stamp : Stamp) (actor : Claims) (action : String) (c : Client) (db : Accounts)
    → is_known_user actor.sub db.users ≡ false
    → answered stamp actor action none (ok c, db) ≡ (raised 500 "Internal Server Error", db)
unfolding answered serialised audited
answered-unknown stamp actor action c db unknown =
    rw (unrecordable stamp actor (some c.id) db unknown) refl

insert_client-users :
    (c c' : Client) (db db' : Accounts) → insert_client c db ≡ (ok c', db') → db'.users ≡ db.users
insert_client-users c c' db db' h =
    ap (λ (r : Reply Client × Accounts). r.1.users) (sym h) ∙ (insert_client-fit c db).1

slug-stored :
    (now id : ℕ) (body : ClientCreate) (c : Client) (db db' : Accounts)
    → insert_client (new_client now id body) db ≡ (ok c, db')
    → slug_taken (some body.slug) db'.clients ≡ true
unfolding insert_client new_client slug_taken first text_is
slug-stored now id body c db db' h = ground (arith, eq_refl body.slug)

create_checked-answered :
    (stamp : Stamp) (action : String) (id : ℕ) (body : ClientCreate) (actor : Claims)
    (db : Accounts)
    → is_plan (some body.plan) ≡ true
    → slug_taken (some body.slug) db.clients ≡ false
    → create_checked action stamp id body actor db
      ≡ answered stamp actor action none (insert_client (new_client stamp.now id body) db)
unfolding create_checked
create_checked-answered stamp action id body actor db plan free = rw (plan, free) refl

create_checked-unknown :
    (stamp : Stamp) (action : String) (id : ℕ) (body : ClientCreate) (actor : Claims) (c : Client)
    (db db' : Accounts)
    → is_known_user actor.sub db.users ≡ false
    → is_plan (some body.plan) ≡ true
    → slug_taken (some body.slug) db.clients ≡ false
    → insert_client (new_client stamp.now id body) db ≡ (ok c, db')
    → create_checked action stamp id body actor db ≡ (raised 500 "Internal Server Error", db')
create_checked-unknown stamp action id body actor c db db' unknown plan free stored =
    create_checked-answered stamp action id body actor db plan free
    ∙ ap (answered stamp actor action none) stored
    ∙ answered-unknown stamp actor action c db' (
        ap (is_known_user actor.sub)
          (insert_client-users (new_client stamp.now id body) c db db' stored)
        ∙ unknown)

create_checked-taken :
    (stamp : Stamp) (action : String) (id : ℕ) (body : ClientCreate) (actor : Claims)
    (db : Accounts)
    → is_plan (some body.plan) ≡ true
    → slug_taken (some body.slug) db.clients ≡ true
    → create_checked action stamp id body actor db ≡ (raised 409 "Slug already exists", db)
unfolding create_checked
create_checked-taken stamp action id body actor db plan taken = rw (plan, taken) refl

-- A client that is created with a super_admin's token whose subject is the id of no user, such as the
-- bootstrap administrator's, is stored where its INSERT succeeds, and the answer is a 500: the refused audit
-- row has expired the client that the handler answers with. The same request, sent again, is answered 409,
-- and changes nothing.
pub create_as-unserved :
    (stamp stamp' : Stamp) (action : String) (id id' : ℕ) (body : ClientCreate) (user : Claims)
    (c : Client) (db db' : Accounts)
    → text_is user.role "super_admin" ≡ true
    → is_known_user user.sub db.users ≡ false
    → is_plan (some body.plan) ≡ true
    → slug_taken (some body.slug) db.clients ≡ false
    → insert_client (new_client stamp.now id body) db ≡ (ok c, db')
    → (create_as action stamp id body user db ≡ (raised 500 "Internal Server Error", db'))
      × (create_as action stamp' id' body user db' ≡ (raised 409 "Slug already exists", db'))
unfolding create_as
create_as-unserved stamp stamp' action id id' body user c db db' super unknown plan free stored =
    let granted = super_admin-ok user super in
    (
      guarded_write-ok (require_super_admin user) db _ user granted
          ∙ create_checked-unknown stamp action id body user c db db' unknown plan free stored,
      guarded_write-ok (require_super_admin user) db' _ user granted
          ∙ create_checked-taken stamp' action id' body user db' plan
              (slug-stored stamp.now id body c db db' stored),
    )
