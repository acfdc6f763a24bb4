-- ===== src/Admin/Tenants.antt =====
-- services/api/src/routers/admin.py: the handlers of /admin/clients and /admin/tenants, and the reading ones.
use ai_calling_agent.Prelude.{
  ℕ, String, Bool, ◌&&◌, Option, none, some, List, leb, select, length, if◌then◌else◌,
}
use ai_calling_agent.Accounts.Models.{
  Client, User, Caller, Integer, pos, Accounts, Reply, ok, raised, guarded, text_is, number_is,
}
use ai_calling_agent.Accounts.Tokens.{Claims}
use ai_calling_agent.Paging.{Paginated, is_page, listing}
use ai_calling_agent.Portal.Calls.{contains, if_search}
use ai_calling_agent.Portal.Directory.{if_text, map_page}
use ai_calling_agent.Admin.Access.{require_super_admin}
use ai_calling_agent.Admin.Audit.{Stamp}
use ai_calling_agent.Admin.Clients.{
  ClientCreate, ClientUpdate, create_as, update_as, delete_as, find_client,
}

pub record TenantResponse : Type 0 where
  pub tenant_id : String
  pub name : String
  pub slug : Option String
  pub plan : Option String
  pub status : Option String
  pub contact_email : Option String
  pub contact_phone : Option String
  pub api_limit : Option Integer
  pub max_concurrent_calls : Option Integer
  pub created_at : ℕ
  pub updated_at : ℕ

-- `digits` is str() of a number.
unfoldable pub client_to_tenant : (ℕ → String) → Client → TenantResponse
client_to_tenant digits c = record {
  tenant_id = digits c.id;
  name = c.name;
  slug = c.slug;
  plan = c.plan;
  status = c.status;
  contact_email = c.contact_email;
  contact_phone = c.contact_phone;
  api_limit = c.api_limit;
  max_concurrent_calls = c.max_concurrent_calls;
  created_at = c.created_at;
  updated_at = c.updated_at;
}

unfoldable pub map_reply {ℓ κ} : {A : Type ℓ} {B : Type κ} → (A → B) → Reply A → Reply B
map_reply f (ok a) = ok (f a)
map_reply f (raised code detail) = raised code detail

unfoldable pub create_client :
    Stamp → ℕ → ClientCreate → Claims → Accounts → Reply Client × Accounts
unfolding create_as
create_client = create_as "client.create"

unfoldable pub create_tenant :
    (ℕ → String) → Stamp → ℕ → ClientCreate → Claims → Accounts → Reply TenantResponse × Accounts
unfolding create_as map_reply client_to_tenant
create_tenant digits stamp fresh_id body user db =
    let (r, db') = create_as "tenant.create" stamp fresh_id body user db in
    (map_reply (client_to_tenant digits) r, db')

unfoldable pub update_client :
    Stamp → ℕ → ClientUpdate → Claims → Accounts → Reply Client × Accounts
unfolding update_as
update_client = update_as "client.update" "Client not found"

unfoldable pub update_tenant :
    (ℕ → String) → Stamp → ℕ → ClientUpdate → Claims → Accounts → Reply TenantResponse × Accounts
unfolding update_as map_reply client_to_tenant
update_tenant digits stamp id body user db =
    let (r, db') = update_as "tenant.update" "Tenant not found" stamp id body user db in
    (map_reply (client_to_tenant digits) r, db')

unfoldable pub delete_client : Stamp → ℕ → Claims → Accounts → Reply Client × Accounts
unfolding delete_as
delete_client = delete_as "client.delete" "Client not found"

unfoldable pub delete_tenant : Stamp → ℕ → Claims → Accounts → Reply Client × Accounts
unfolding delete_as
delete_tenant = delete_as "tenant.delete" "Tenant not found"

-- The clients that a listing is of. There is no ORDER BY: the rows come in the order of the table.
unfoldable pub found_clients :
    (String → String → Bool) → Option String → Option String → List Client → List Client
unfolding select if_text if_search contains
found_clients ilike status search clients =
    select
      (λ c.
        if_text status c.status
        && if_search (λ s (row : Client). contains ilike s (some row.name)) search c)
      clients

-- GET /admin/clients
unfoldable pub list_clients :
    (String → String → Bool)
    → ℕ
    → ℕ
    → Option String
    → Option String
    → Claims
    → List Client
    → Reply (Paginated Client)
unfolding guarded require_super_admin is_page listing found_clients
list_clients ilike page per_page status search user clients =
    guarded (require_super_admin user) (λ _.
      if is_page page per_page
      then ok (listing page per_page (found_clients ilike status search clients))
      else raised 422 "Invalid query")

-- GET /admin/tenants
unfoldable pub list_tenants :
    (ℕ → String)
    → (String → String → Bool)
    → ℕ
    → ℕ
    → Option String
    → Option String
    → Claims
    → List Client
    → Reply (Paginated TenantResponse)
unfolding list_clients map_reply map_page client_to_tenant
list_tenants digits ilike page per_page status search user clients =
    map_reply (map_page (client_to_tenant digits))
      (list_clients ilike page per_page status search user clients)

unfoldable pub found_or_404 {ℓ} : {A : Type ℓ} → String → Option A → Reply A
found_or_404 missing none = raised 404 missing
found_or_404 missing (some a) = ok a

-- GET /admin/clients/{client_id}
unfoldable pub get_client : ℕ → Claims → List Client → Reply Client
unfolding guarded require_super_admin found_or_404 find_client
get_client id user clients =
    guarded (require_super_admin user)
      (λ _. found_or_404 "Client not found" (find_client id clients))

-- GET /admin/tenants/{tenant_id}
unfoldable pub get_tenant : (ℕ → String) → ℕ → Claims → List Client → Reply TenantResponse
unfolding guarded require_super_admin found_or_404 find_client map_reply client_to_tenant
get_tenant digits id user clients = guarded (require_super_admin user) (λ _.
    map_reply (client_to_tenant digits) (found_or_404 "Tenant not found" (find_client id clients)))

-- Without `plan_usage_pct`, a rounded float.
pub record ClientStats : Type 0 where
  pub client_id : ℕ
  pub total_calls : ℕ
  pub calls_this_month : ℕ
  pub active_users : ℕ
  pub plan_call_limit : Integer

-- client.api_limit or 0
unfoldable pub limit_or_zero : Option Integer → Integer
limit_or_zero none = pos 0
limit_or_zero (some n) = n

-- A super_admin sees every row; `month` is the first instant of the month of the request.
unfoldable pub client_stats : ℕ → ℕ → Accounts → Client → Reply ClientStats
unfolding select number_is text_is limit_or_zero
client_stats month id db c =
    let calls = select (λ (call : Caller). number_is call.client_id id) db.callers in
    ok (record {
      client_id = id;
      total_calls = length calls;
      calls_this_month = length (select (λ (call : Caller). leb month call.created_at) calls);
      active_users =
          length
            (select (λ (u : User). number_is u.tenant_id id && text_is u.status "active") db.users);
      plan_call_limit = limit_or_zero c.api_limit;
    })

-- GET /admin/clients/{client_id}/stats and GET /admin/tenants/{tenant_id}/stats
unfoldable pub get_client_stats : String → ℕ → ℕ → Claims → Accounts → Reply ClientStats
unfolding guarded require_super_admin found_or_404 find_client client_stats
get_client_stats missing month id user db =
    guarded (require_super_admin user)
      (λ _. guarded (found_or_404 missing (find_client id db.clients)) (client_stats month id db))
