-- ===== src/Portal/Contacts.antt =====
-- services/api/src/routers/client.py: the customers of a tenant after the handlers that write them.
use ai_calling_agent.Prelude.{
  ℕ, ◌≡◌, refl, ◌∙◌, String, Bool, Option, none, some, List, [], ◌∷◌, arith, Bool-cases,
  Option-cases, inl, inr,
}
use ai_calling_agent.Prelude.Rows.{first, set_where, first-set_where}
use ai_calling_agent.Accounts.Models.{Client, Customer, Reply, ok, raised, guarded_write-keep}
use ai_calling_agent.Accounts.Tokens.{Claims}
use ai_calling_agent.Accounts.Scope.{Context, tenant_context}
use ai_calling_agent.Portal.Access.{require_client}
use ai_calling_agent.Portal.Customers.{
  CustomerUpdate, CustomerCreate, is_row, get_customer, set_fields, is_unchanged, patched,
  columns_fit, write_customer, new_customer, has_phone, is_insertable, insert_customer, upsert,
  create_or_update_customer, write_own, update_customer,
}

-- No two rows have the same tenant and phone.
abbrev pub NoTwins : List Customer → Type 0
NoTwins [] = Unit
NoTwins (c ∷ cs) = (first (has_phone c.client_id c.phone) cs ≡ none) × NoTwins cs

pub patched-keys :
    (now : ℕ) (body : CustomerUpdate) (c : Customer)
    → ((patched now body c).client_id ≡ c.client_id)
      × ((patched now body c).phone ≡ c.phone)
      × ((patched now body c).id ≡ c.id)
unfolding patched set_fields
patched-keys now body c = elim (Bool-cases (is_unchanged body c)) [
  | inl e ↦ rw e (refl, refl, refl)
  | inr e ↦ rw e (refl, refl, refl)
]

pub patched-has_phone :
    (now : ℕ) (body : CustomerUpdate) (id : ℕ) (phone : String) (c : Customer)
    → has_phone id phone (patched now body c) ≡ has_phone id phone c
unfolding has_phone
patched-has_phone now body id phone c = let k = patched-keys now body c in rw (k.0, k.1) refl

first-patched :
    (q : Customer → Bool) (now : ℕ) (body : CustomerUpdate) (id : ℕ) (phone : String)
    (cs : List Customer)
    → first (has_phone id phone) cs ≡ none
    → first (has_phone id phone) (set_where q (patched now body) cs) ≡ none
first-patched q now body id phone cs h =
    first-set_where (has_phone id phone) q (patched now body) cs
      (patched-has_phone now body id phone)
    ∙ (rw h refl)

patched-NoTwins :
    (q : Customer → Bool) (now : ℕ) (body : CustomerUpdate) (cs : List Customer)
    → NoTwins cs
    → NoTwins (set_where q (patched now body) cs)
unfolding set_where
patched-NoTwins q now body [] h = tt
patched-NoTwins q now body (c ∷ cs) h =
    let k = patched-keys now body c in
    let rest = patched-NoTwins q now body cs h.1 in
    elim (Bool-cases (q c)) [
      | inl e ↦ rw (e, k.0, k.1) (first-patched q now body c.client_id c.phone cs h.0, rest)
      | inr e ↦ rw e (first-patched q now body c.client_id c.phone cs h.0, rest)
    ]

write_customer-NoTwins :
    (ctx : Context) (now : ℕ) (body : CustomerUpdate) (c : Customer) (cs : List Customer)
    → NoTwins cs
    → NoTwins (write_customer ctx now body c cs).1
unfolding write_customer
write_customer-NoTwins ctx now body c cs h = elim (Bool-cases (columns_fit (set_fields body c))) [
  | inl e ↦ rw e (patched-NoTwins (is_row ctx c.id) now body cs h)
  | inr e ↦ rw e h
]

insert_customer-NoTwins :
    (ctx : Context) (clients : List Client) (c : Customer) (cs : List Customer)
    → NoTwins cs
    → NoTwins (insert_customer ctx clients c cs).1
unfolding insert_customer is_insertable
insert_customer-NoTwins ctx clients c cs h =
    elim (Option-cases (first (has_phone c.client_id c.phone) cs)) [
      | inl e ↦ elim (Bool-cases (is_insertable ctx clients cs c)) [
        | inl i ↦ rw i (e, h)
        | inr i ↦ rw i h
      ]
      | inr (other, e) ↦ ground arith
    ]

upsert-NoTwins :
    (ctx : Context) (now : ℕ) (fresh_id : String) (id : ℕ) (body : CustomerCreate)
    (clients : List Client) (cs : List Customer) (found : Option Customer)
    → NoTwins cs
    → NoTwins (upsert ctx now fresh_id id body clients cs found).1
unfolding upsert
upsert-NoTwins ctx now fresh_id id body clients cs none h =
    insert_customer-NoTwins ctx clients (new_customer now fresh_id id body) cs h
upsert-NoTwins ctx now fresh_id id body clients cs (some c) h =
    write_customer-NoTwins ctx now body.fields c cs h

write_own-NoTwins :
    (ctx : Context) (now : ℕ) (body : CustomerUpdate) (cs : List Customer) (r : Reply Customer)
    → NoTwins cs
    → NoTwins (write_own ctx now body cs r).1
unfolding write_own
write_own-NoTwins ctx now body cs (ok c) h = write_customer-NoTwins ctx now body c cs h
write_own-NoTwins ctx now body cs (raised code detail) h = h

-- The phone of a customer stays unique in its tenant under POST /client/customers, whoever calls it with
-- whatever body.
pub create_or_update_customer-NoTwins :
    (now : ℕ) (fresh_id : String) (body : CustomerCreate) (user : Claims) (clients : List Client)
    (cs : List Customer)
    → NoTwins cs
    → NoTwins (create_or_update_customer now fresh_id body user clients cs).1
unfolding create_or_update_customer
create_or_update_customer-NoTwins now fresh_id body user clients cs h =
    guarded_write-keep NoTwins (require_client user) cs _ h
      (λ id e. upsert-NoTwins (tenant_context user) now fresh_id id body clients cs _ h)

-- The phone of a customer stays unique in its tenant under PUT /client/customers/{customer_id}.
pub update_customer-NoTwins :
    (now : ℕ) (customer_id : String) (body : CustomerUpdate) (user : Claims) (cs : List Customer)
    → NoTwins cs
    → NoTwins (update_customer now customer_id body user cs).1
unfolding update_customer
update_customer-NoTwins now customer_id body user cs h =
    write_own-NoTwins (tenant_context user) now body cs (get_customer customer_id user cs) h
