-- ===== src/Admin/Clients.antt =====
-- services/api/src/routers/admin.py: the handlers of /admin/clients, and those of /admin/tenants, which are the
-- same but for the action that they audit, the details of their errors and the form of their answers.
use ai_calling_agent.Prelude.{
  ℕ, String, Bool, true, false, not, ◌&&◌, ◌==◌, Option, none, some, List, [], ◌∷◌, eqb, is_some,
  one_of, if◌then◌else◌,
}
use ai_calling_agent.Prelude.Rows.{first, set_where}
use ai_calling_agent.Accounts.Models.{
  Client, Integer, Accounts, of_client, Reply, ok, raised, guarded_write, text_is,
}
use ai_calling_agent.Accounts.Columns.{set_field, set_value, same_text, same_integer, is_int32}
use ai_calling_agent.Accounts.Tokens.{Claims}
use ai_calling_agent.Jobs.Create.{fits}
use ai_calling_agent.Admin.Access.{require_super_admin}
use ai_calling_agent.Admin.Audit.{
  Stamp, client_audit_snapshot, is_recordable, write_audit_log, serialised,
}

-- The defaults of the request are filled in.
pub record ClientCreate : Type 0 where
  pub name : String
  pub slug : String
  pub plan : String
  pub contact_email : Option String
  pub contact_phone : Option String
  pub api_limit : Integer
  pub max_concurrent_calls : Integer

pub record ClientUpdate : Type 0 where
  pub name : Option String
  pub slug : Option String
  pub plan : Option String
  pub status : Option String
  pub contact_email : Option String
  pub contact_phone : Option String
  pub api_limit : Option Integer
  pub max_concurrent_calls : Option Integer

-- VALID_PLANS, VALID_CLIENT_STATUSES; a value that is not given passes.
unfoldable pub is_plan : Option String → Bool
unfolding one_of
is_plan none = true
is_plan (some plan) = one_of plan ("starter" ∷ "pro" ∷ "enterprise" ∷ [])

unfoldable pub is_client_status : Option String → Bool
unfolding one_of
is_client_status none = true
is_client_status (some status) = one_of status ("active" ∷ "suspended" ∷ "inactive" ∷ [])

-- The widths and the CHECK constraints of the table.
unfoldable pub is_storable : Client → Bool
unfolding fits is_plan is_client_status is_int32
is_storable c =
    fits 255 (some c.name)
    && (fits 100 c.slug
        && (is_plan c.plan
            && (is_client_status c.status
                && (fits 255 c.contact_email
                    && (fits 50 c.contact_phone
                        && (is_int32 c.api_limit && is_int32 c.max_concurrent_calls))))))

-- SELECT … WHERE slug = …
unfoldable pub slug_taken : Option String → List Client → Bool
unfolding text_is
slug_taken none clients = false
slug_taken (some slug) clients = is_some (first (λ c. text_is c.slug slug) clients)

-- Client(**body), with the columns that the INSERT fills in.
unfoldable pub new_client : ℕ → ℕ → ClientCreate → Client
new_client now fresh_id body = record {
  id = fresh_id;
  name = body.name;
  slug = some body.slug;
  plan = some body.plan;
  status = some "active";
  contact_email = body.contact_email;
  contact_phone = body.contact_phone;
  api_limit = some body.api_limit;
  max_concurrent_calls = some body.max_concurrent_calls;
  created_at = now;
  updated_at = now;
  country = none;
  timezone = none;
  currency = none;
  default_language = none;
  phone_country_code = none;
}

-- The INSERT, with the primary key and the unique index on the slug.
unfoldable pub insert_client : Client → Accounts → Reply Client × Accounts
unfolding is_storable slug_taken
insert_client c db =
    if is_storable c
      && (not (is_some (first (λ other. eqb other.id c.id) db.clients))
          && not (slug_taken c.slug db.clients))
    then (ok c, record db { clients = c ∷ db.clients })
    else (raised 500 "Internal Server Error", db)

-- The audit row of a handler that has committed its change; without one nothing is recorded.
unfoldable pub audited :
    Stamp → Claims → String → Option Client → Reply Client × Accounts → Reply Client × Accounts
unfolding client_audit_snapshot write_audit_log
audited stamp actor action before (raised code detail, db) = (raised code detail, db)
audited stamp actor action none (ok c, db) = (
  ok c,
  write_audit_log stamp actor action (some c.id) none (some (of_client (client_audit_snapshot c)))
      db,
)
audited stamp actor action (some old) (ok c, db) = (
  ok c,
  write_audit_log stamp actor action (some c.id) (some (of_client (client_audit_snapshot old)))
      (some (of_client (client_audit_snapshot c))) db,
)

-- The audit row, and the answer with the changed client.
unfoldable pub answered :
    Stamp → Claims → String → Option Client → Reply Client × Accounts → Reply Client × Accounts
unfolding audited serialised is_recordable
answered stamp actor action before (raised code detail, db) = (raised code detail, db)
answered stamp actor action before (ok c, db) = (
  serialised (is_recordable stamp actor (some c.id) db) (ok c),
  (audited stamp actor action before (ok c, db)).1,
)

unfoldable pub create_checked :
    String → Stamp → ℕ → ClientCreate → Claims → Accounts → Reply Client × Accounts
unfolding is_plan slug_taken insert_client new_client answered
create_checked action stamp fresh_id body actor db =
    if is_plan (some body.plan)
    then if slug_taken (some body.slug) db.clients
      then (raised 409 "Slug already exists", db)
      else answered stamp actor action none (insert_client (new_client stamp.now fresh_id body) db)
    else (raised 400 "plan must be one of ['enterprise', 'pro', 'starter']", db)

-- POST /admin/clients and POST /admin/tenants, with the action that each audits.
unfoldable pub create_as :
    String → Stamp → ℕ → ClientCreate → Claims → Accounts → Reply Client × Accounts
unfolding guarded_write require_super_admin create_checked
create_as action stamp fresh_id body user db =
    guarded_write (require_super_admin user) db
      (λ actor. create_checked action stamp fresh_id body actor db)

-- db.get(Client, id)
unfoldable pub find_client : ℕ → List Client → Option Client
find_client id clients = first (λ c. eqb c.id id) clients

unfoldable pub assign : ClientUpdate → Client → Client
unfolding set_field set_value
assign body c = record c {
  name = set_value body.name c.name;
  slug = set_field body.slug c.slug;
  plan = set_field body.plan c.plan;
  status = set_field body.status c.status;
  contact_email = set_field body.contact_email c.contact_email;
  contact_phone = set_field body.contact_phone c.contact_phone;
  api_limit = set_field body.api_limit c.api_limit;
  max_concurrent_calls = set_field body.max_concurrent_calls c.max_concurrent_calls;
}

-- The columns that `assign` may write are equal.
unfoldable pub same_client : Client → Client → Bool
unfolding same_text same_integer
same_client a b =
    a.name == b.name
    && (same_text a.slug b.slug
        && (same_text a.plan b.plan
            && (same_text a.status b.status
                && (same_text a.contact_email b.contact_email
                    && (same_text a.contact_phone b.contact_phone
                        && (same_integer a.api_limit b.api_limit
                            && same_integer a.max_concurrent_calls b.max_concurrent_calls))))))

-- The row after the commit: `updated_at` is set where a column has changed.
unfoldable pub assigned : ℕ → ClientUpdate → Client → Client
unfolding assign same_client
assigned now body c =
    if same_client c (assign body c) then c else record (assign body c) { updated_at = now }

-- "slug" in updates and updates["slug"] != client.slug, and another row has it
unfoldable pub slug_clash : Option String → Option String → List Client → Bool
unfolding same_text slug_taken
slug_clash none current clients = false
slug_clash (some slug) current clients =
    if same_text (some slug) current then false else slug_taken (some slug) clients

-- The UPDATE, whose row must be storable; the unique index is met where `slug_clash` is false.
unfoldable pub store_client : ℕ → ClientUpdate → Client → Accounts → Reply Client × Accounts
unfolding is_storable assign assigned
store_client now body c db =
    if is_storable (assign body c)
    then (
      ok (assigned now body c),
      record db { clients = set_where (λ other. eqb other.id c.id) (assigned now body) db.clients },
    )
    else (raised 500 "Internal Server Error", db)

unfoldable pub update_found :
    String
    → String
    → Stamp
    → ClientUpdate
    → Claims
    → Accounts
    → Option Client
    → Reply Client × Accounts
unfolding is_plan is_client_status slug_clash store_client answered
update_found action missing stamp body actor db none = (raised 404 missing, db)
update_found action missing stamp body actor db (some c) =
    if is_plan body.plan
    then if is_client_status body.status
      then if slug_clash body.slug c.slug db.clients
        then (raised 409 "Slug already exists", db)
        else answered stamp actor action (some c) (store_client stamp.now body c db)
      else (raised 400 "status must be one of ['active', 'inactive', 'suspended']", db)
    else (raised 400 "plan must be one of ['enterprise', 'pro', 'starter']", db)

-- PUT /admin/clients/{client_id} and PUT /admin/tenants/{tenant_id}
unfoldable pub update_as :
    String → String → Stamp → ℕ → ClientUpdate → Claims → Accounts → Reply Client × Accounts
unfolding guarded_write require_super_admin update_found find_client
update_as action missing stamp id body user db =
    guarded_write (require_super_admin user) db
      (λ actor. update_found action missing stamp body actor db (find_client id db.clients))

-- client.status = "inactive"
abbrev pub inactive : ClientUpdate
inactive = record {
  name = none;
  slug = none;
  plan = none;
  status = some "inactive";
  contact_email = none;
  contact_phone = none;
  api_limit = none;
  max_concurrent_calls = none;
}

unfoldable pub delete_found :
    String → String → Stamp → Claims → Accounts → Option Client → Reply Client × Accounts
unfolding store_client audited
delete_found action missing stamp actor db none = (raised 404 missing, db)
delete_found action missing stamp actor db (some c) =
    audited stamp actor action (some c) (store_client stamp.now inactive c db)

-- DELETE /admin/clients/{client_id} and DELETE /admin/tenants/{tenant_id}, which answer no content: the row
-- here is the client after the change.
unfoldable pub delete_as : String → String → Stamp → ℕ → Claims → Accounts → Reply Client × Accounts
unfolding guarded_write require_super_admin delete_found find_client
delete_as action missing stamp id user db =
    guarded_write (require_super_admin user) db
      (λ actor. delete_found action missing stamp actor db (find_client id db.clients))
