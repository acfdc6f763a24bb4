-- ===== src/Portal/Tenancy.antt =====
-- services/api/src/tenant.py with services/api/src/routers/client.py: what the token of a client sees and
-- writes.
use ai_calling_agent.Prelude.{
  ℕ, ◌≡◌, ◌≢◌, refl, ap, ◌∙◌, String, true, false, ◌==◌, eq_iff, Option, none, some, List, eqb,
  select, arith, Bool-cases, Option-cases, inl, inr,
}
use ai_calling_agent.Prelude.Rows.{select-set_where}
use ai_calling_agent.Accounts.Models.{
  Client, Customer, Reply, ok, raised, guarded_write-keep, Reply-cases,
}
use ai_calling_agent.Accounts.Tokens.{Claims}
use ai_calling_agent.Accounts.Login.{or_default}
use ai_calling_agent.Accounts.Scope.{tenant_context, tenant, context_of_client}
use ai_calling_agent.Portal.Access.{require_client, is_client_role, client_of}
use ai_calling_agent.Portal.Customers.{
  CustomerUpdate, CustomerCreate, is_row, get_customer, patched, write_customer, new_customer,
  is_insertable, insert_customer, upsert, create_or_update_customer, write_own, update_customer,
}
use ai_calling_agent.Portal.Contacts.{patched-keys}

super_admin_role : (role : String) → role ≡ "super_admin" → is_client_role (some role) ≡ false
unfolding is_client_role
super_admin_role role e = rw e refl

role-context :
    (role : Option String)
    → is_client_role role ≡ true
    → (or_default role "agent" == "super_admin") ≡ false
unfolding or_default
role-context none h = refl
role-context (some role) h = elim (Bool-cases (role == "super_admin")) [
  | inl e ↦ cc (super_admin_role role ((eq_iff role "super_admin").0 e), h)
  | inr e ↦ e
]

client_of-context :
    (c : Option ℕ) (id : ℕ)
    → client_of c ≡ some id
    → (context_of_client c ≡ tenant id) × (c ≡ some id)
unfolding client_of context_of_client
client_of-context none id h = cc
client_of-context (some n) id h = ground arith

-- A client's token sees the rows of its tenant.
pub require_client-context :
    (user : Claims) (id : ℕ)
    → require_client user ≡ ok id
    → (tenant_context user ≡ tenant id) × (user.client_id ≡ some id)
unfolding require_client tenant_context
require_client-context user id h = elim (Bool-cases (is_client_role user.role)) [
  | inr e ↦ cc (h, e)
  | inl e ↦ elim (Option-cases (client_of user.client_id)) [
    | inl n ↦ ground arith
    | inr (m, c) ↦
        let k = client_of-context user.client_id m c in
        ground (arith, role-context user.role e, k.0, k.1)
  ]
]

-- The customers of a tenant.
abbrev pub customers_of : ℕ → List Customer → List Customer
customers_of other cs = select (λ c. eqb c.client_id other) cs

module _ (id other : ℕ) (apart : eqb id other ≡ false) where
  row-apart :
      (customer_id : String) (now : ℕ) (body : CustomerUpdate) (c : Customer)
      → is_row (tenant id) customer_id c ≡ true
      → (eqb c.client_id other ≡ false) × (eqb (patched now body c).client_id other ≡ false)
  unfolding is_row
  row-apart customer_id now body c h = ground (arith, (patched-keys now body c).0)

  write_customer-apart :
      (now : ℕ) (body : CustomerUpdate) (c : Customer) (cs : List Customer)
      → customers_of other (write_customer (tenant id) now body c cs).1 ≡ customers_of other cs
  unfolding write_customer
  write_customer-apart now body c cs =
      let kept =
        select-set_where (λ (x : Customer). eqb x.client_id other) (is_row (tenant id) c.id)
          (patched now body) cs (row-apart c.id now body) in
      ground (arith, kept)

  insert_customer-apart :
      (clients : List Client) (c : Customer) (cs : List Customer)
      → c.client_id ≡ id
      → customers_of other (insert_customer (tenant id) clients c cs).1 ≡ customers_of other cs
  unfolding insert_customer select
  insert_customer-apart clients c cs e =
      elim (Bool-cases (is_insertable (tenant id) clients cs c)) [
        | inl i ↦ rw i (ground arith)
        | inr i ↦ rw i refl
      ]

  upsert-apart :
      (now : ℕ) (fresh_id : String) (body : CustomerCreate) (clients : List Client)
      (cs : List Customer) (found : Option Customer)
      → customers_of other (upsert (tenant id) now fresh_id id body clients cs found).1
        ≡ customers_of other cs
  unfolding upsert new_customer
  upsert-apart now fresh_id body clients cs none =
      insert_customer-apart clients (new_customer now fresh_id id body) cs refl
  upsert-apart now fresh_id body clients cs (some c) = write_customer-apart now body.fields c cs

  write_own-apart :
      (now : ℕ) (body : CustomerUpdate) (cs : List Customer) (r : Reply Customer)
      → customers_of other (write_own (tenant id) now body cs r).1 ≡ customers_of other cs
  unfolding write_own
  write_own-apart now body cs (ok c) = write_customer-apart now body c cs
  write_own-apart now body cs (raised code detail) = refl

ne_tenant :
    (user : Claims) (id other : ℕ)
    → require_client user ≡ ok id
    → user.client_id ≢ some other
    → eqb id other ≡ false
ne_tenant user id other e apart = elim (Bool-cases (eqb id other)) [
  | inr n ↦ n
  | inl y ↦
      absurd (apart ((require_client-context user id e).1 ∙ ap (λ (n : ℕ). some n) (ground arith)))
]

-- POST /client/customers leaves the customers of every tenant that the token does not name as they were,
-- whatever the body says.
pub create_or_update_customer-customers_of :
    (now : ℕ) (fresh_id : String) (body : CustomerCreate) (user : Claims) (clients : List Client)
    (cs : List Customer) (other : ℕ)
    → user.client_id ≢ some other
    → customers_of other (create_or_update_customer now fresh_id body user clients cs).1
      ≡ customers_of other cs
unfolding create_or_update_customer
create_or_update_customer-customers_of now fresh_id body user clients cs other apart =
    guarded_write-keep (λ t. customers_of other t ≡ customers_of other cs) (require_client user) cs
      _ refl
      (λ id e.
        rw ((require_client-context user id e).0)
          (upsert-apart id other (ne_tenant user id other e apart) now fresh_id body clients cs _))

get_customer-raised :
    (customer_id : String) (user : Claims) (cs : List Customer) (code : ℕ) (detail : String)
    → require_client user ≡ raised code detail
    → get_customer customer_id user cs ≡ raised code detail
unfolding get_customer
get_customer-raised customer_id user cs code detail e = rw e refl

-- PUT /client/customers/{customer_id} leaves the customers of every tenant that the token does not name
-- as they were, whatever row the request names.
pub update_customer-customers_of :
    (now : ℕ) (customer_id : String) (body : CustomerUpdate) (user : Claims) (cs : List Customer)
    (other : ℕ)
    → user.client_id ≢ some other
    → customers_of other (update_customer now customer_id body user cs).1 ≡ customers_of other cs
unfolding update_customer
update_customer-customers_of now customer_id body user cs other apart =
    elim (Reply-cases (require_client user)) [
      | inl (id, e) ↦
          rw ((require_client-context user id e).0)
            (write_own-apart id other (ne_tenant user id other e apart) now body cs _)
      | inr (code, detail, e) ↦ rw (get_customer-raised customer_id user cs code detail e) refl
    ]
