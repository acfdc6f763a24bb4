-- ===== src/Portal/Customers.antt =====
-- services/api/src/routers/client.py: `list_customers`, `get_customer`, `create_or_update_customer` and
-- `update_customer`. The column `metadata_json`, which no handler touches, is left out.
use ai_calling_agent.Prelude.{
  ℕ, String, Bool, not, ◌&&◌, ◌||◌, ◌==◌, Option, none, some, List, ◌∷◌, eqb, is_some, select,
  if◌then◌else◌,
}
use ai_calling_agent.Prelude.Rows.{first, set_where}
use ai_calling_agent.Accounts.Models.{Client, Customer, Reply, ok, raised, guarded_write, guarded}
use ai_calling_agent.Accounts.Tokens.{Claims}
use ai_calling_agent.Accounts.Scope.{Context, tenant_context, is_visible}
use ai_calling_agent.Paging.{Paginated, is_page, listing, NewestFirst}
use ai_calling_agent.Jobs.Create.{fits}
use ai_calling_agent.Accounts.Columns.{set_field, same_text}
use ai_calling_agent.Portal.Access.{require_client}
use ai_calling_agent.Portal.Calls.{contains, if_search}

pub record CustomerUpdate : Type 0 where
  pub name : Option String
  pub email : Option String
  pub language_code : Option String
  pub timezone : Option String
  pub country_code : Option String
  pub notes : Option String
  pub external_id : Option String

-- The phone, and the fields that are those of CustomerUpdate.
pub record CustomerCreate : Type 0 where
  pub phone : String
  pub fields : CustomerUpdate

unfoldable pub customer_matches : (String → String → Bool) → String → Customer → Bool
unfolding contains
customer_matches ilike s c =
    contains ilike s c.name || (contains ilike s (some c.phone) || contains ilike s c.email)

-- The rows of customers that a request sees, and of them those of one tenant.
unfoldable pub tenant_customers : Context → ℕ → List Customer → List Customer
unfolding select is_visible
tenant_customers ctx id customers =
    select (λ c. is_visible ctx (some c.client_id) && eqb c.client_id id) customers

-- GET /client/customers
unfoldable pub list_customers :
    NewestFirst Customer (λ c. c.created_at)
    → (String → String → Bool)
    → ℕ
    → ℕ
    → Option String
    → Claims
    → List Customer
    → Reply (Paginated Customer)
unfolding guarded is_page tenant_customers if_search customer_matches listing
list_customers order ilike page per_page search user customers =
    guarded (require_client user) (λ id.
      if is_page page per_page
      then ok (
          listing page per_page (
            order.sort (
              select (if_search (customer_matches ilike) search)
                (tenant_customers (tenant_context user) id customers))))
      else raised 422 "Invalid query")

-- The row that `db.get(Customer, customer_id)` reads and the UPDATE of it writes.
unfoldable pub is_row : Context → String → Customer → Bool
unfolding is_visible
is_row ctx customer_id c = is_visible ctx (some c.client_id) && c.id == customer_id

unfoldable pub own_customer : ℕ → Option Customer → Reply Customer
own_customer id none = raised 404 "Customer not found"
own_customer id (some c) = if eqb c.client_id id then ok c else raised 404 "Customer not found"

-- GET /client/customers/{customer_id}
unfoldable pub get_customer : String → Claims → List Customer → Reply Customer
unfolding guarded own_customer is_row
get_customer customer_id user customers =
    guarded (require_client user)
      (λ id. own_customer id (first (is_row (tenant_context user) customer_id) customers))

unfoldable pub set_fields : CustomerUpdate → Customer → Customer
unfolding set_field
set_fields body c = record c {
  name = set_field body.name c.name;
  email = set_field body.email c.email;
  language_code = set_field body.language_code c.language_code;
  timezone = set_field body.timezone c.timezone;
  country_code = set_field body.country_code c.country_code;
  notes = set_field body.notes c.notes;
  external_id = set_field body.external_id c.external_id;
}

-- The assignments left every column as it was.
unfoldable pub is_unchanged : CustomerUpdate → Customer → Bool
unfolding set_field same_text
is_unchanged body c =
    same_text (set_field body.name c.name) c.name
    && (same_text (set_field body.email c.email) c.email
        && (same_text (set_field body.language_code c.language_code) c.language_code
            && (same_text (set_field body.timezone c.timezone) c.timezone
                && (same_text (set_field body.country_code c.country_code) c.country_code
                    && (same_text (set_field body.notes c.notes) c.notes
                        && same_text (set_field body.external_id c.external_id) c.external_id)))))

-- The row after the commit: an UPDATE, which sets `updated_at`, is only sent if a column has changed.
unfoldable pub patched : ℕ → CustomerUpdate → Customer → Customer
unfolding is_unchanged set_fields
patched now body c =
    if is_unchanged body c then c else record (set_fields body c) { updated_at = now }

-- The widths of the text columns.
unfoldable pub columns_fit : Customer → Bool
unfolding fits
columns_fit c =
    fits 255 c.name
    && (fits 50 (some c.phone)
        && (fits 255 c.email
            && (fits 10 c.language_code
                && (fits 100 c.timezone && (fits 2 c.country_code && fits 255 c.external_id)))))

unfoldable pub write_customer :
    Context → ℕ → CustomerUpdate → Customer → List Customer → Reply Customer × List Customer
unfolding columns_fit patched is_row
write_customer ctx now body c customers =
    if columns_fit (set_fields body c)
    then (ok (patched now body c), set_where (is_row ctx c.id) (patched now body) customers)
    else (raised 500 "Internal Server Error", customers)

-- Customer(…), with the columns that the INSERT fills in at `now`.
unfoldable pub new_customer : ℕ → String → ℕ → CustomerCreate → Customer
new_customer now fresh_id client_id body = record {
  id = fresh_id;
  client_id = client_id;
  name = body.fields.name;
  phone = body.phone;
  email = body.fields.email;
  language_code = body.fields.language_code;
  timezone = body.fields.timezone;
  country_code = body.fields.country_code;
  notes = body.fields.notes;
  external_id = body.fields.external_id;
  created_at = now;
  updated_at = now;
}

-- client_id = … AND phone = …
unfoldable pub has_phone : ℕ → String → Customer → Bool
has_phone client_id phone c = eqb c.client_id client_id && c.phone == phone

-- The INSERT meets the widths, the primary key, the unique index `uq_customers_client_phone`, the foreign
-- key to clients, and the WITH CHECK of the policy.
unfoldable pub is_insertable : Context → List Client → List Customer → Customer → Bool
unfolding columns_fit has_phone is_visible
is_insertable ctx clients customers c =
    columns_fit c
    && (not (is_some (first (λ other. other.id == c.id) customers))
        && (not (is_some (first (has_phone c.client_id c.phone) customers))
            && (is_some (first (λ client. eqb client.id c.client_id) clients)
                && is_visible ctx (some c.client_id))))

unfoldable pub insert_customer :
    Context → List Client → Customer → List Customer → Reply Customer × List Customer
unfolding is_insertable
insert_customer ctx clients c customers =
    if is_insertable ctx clients customers c
    then (ok c, c ∷ customers)
    else (raised 500 "Internal Server Error", customers)

-- The existing row of the phone is written, or a new row inserted.
unfoldable pub upsert :
    Context
    → ℕ
    → String
    → ℕ
    → CustomerCreate
    → List Client
    → List Customer
    → Option Customer
    → Reply Customer × List Customer
unfolding write_customer insert_customer new_customer
upsert ctx now fresh_id id body clients customers none =
    insert_customer ctx clients (new_customer now fresh_id id body) customers
upsert ctx now fresh_id id body clients customers (some c) =
    write_customer ctx now body.fields c customers

-- POST /client/customers. The unique index leaves one row at most to `scalar_one_or_none`.
unfoldable pub create_or_update_customer :
    ℕ
    → String
    → CustomerCreate
    → Claims
    → List Client
    → List Customer
    → Reply Customer × List Customer
unfolding guarded_write upsert has_phone is_visible require_client
create_or_update_customer now fresh_id body user clients customers =
    let ctx = tenant_context user in
    guarded_write (require_client user) customers (λ id.
      upsert ctx now fresh_id id body clients customers
        (first (λ c. is_visible ctx (some c.client_id) && has_phone id body.phone c) customers))

unfoldable pub write_own :
    Context → ℕ → CustomerUpdate → List Customer → Reply Customer → Reply Customer × List Customer
unfolding write_customer
write_own ctx now body customers (ok c) = write_customer ctx now body c customers
write_own ctx now body customers (raised code detail) = (raised code detail, customers)

-- PUT /client/customers/{customer_id}
unfoldable pub update_customer :
    ℕ → String → CustomerUpdate → Claims → List Customer → Reply Customer × List Customer
unfolding write_own get_customer
update_customer now customer_id body user customers =
    write_own (tenant_context user) now body customers (get_customer customer_id user customers)
