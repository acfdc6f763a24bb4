-- ===== src/Portal/Patches.antt =====
-- services/api/src/routers/client.py: a customer's row under the assignments of a request, made once or again.
use ai_calling_agent.Accounts.Columns.{set_field, same_text}
use ai_calling_agent.Prelude.{
  ℕ, ◌≡◌, refl, String, Bool, true, false, ◌&&◌, eq_refl, Option, none, some, List, arith,
  Bool-cases, inl, inr,
}
use ai_calling_agent.Prelude.Rows.{set_where}
use ai_calling_agent.Accounts.Models.{Client, Customer, Reply, ok, raised}
use ai_calling_agent.Accounts.Scope.{Context, is_visible}
use ai_calling_agent.Portal.Customers.{
  CustomerUpdate, CustomerCreate, is_row, set_fields, is_unchanged, patched, columns_fit,
  write_customer, new_customer, has_phone, insert_customer, upsert,
}
use ai_calling_agent.Portal.Contacts.{patched-keys, patched-has_phone}

pub same_text_refl : (x : Option String) → same_text x x ≡ true
unfolding same_text
same_text_refl none = refl
same_text_refl (some s) = eq_refl s

pub set_field-set_field : (b x : Option String) → set_field b (set_field b x) ≡ set_field b x
unfolding set_field
set_field-set_field none x = refl
set_field-set_field (some v) x = refl

pub set_field_self : (b : Option String) → set_field b b ≡ b
unfolding set_field
set_field_self none = refl
set_field_self (some v) = refl

pub is_unchanged-patched :
    (now : ℕ) (body : CustomerUpdate) (c : Customer) → is_unchanged body (patched now body c) ≡ true
unfolding patched
is_unchanged-patched now body c = elim (Bool-cases (is_unchanged body c)) [
  | inl e ↦ rw e e
  | inr e ↦ rw e (unfold set_fields is_unchanged in simp (set_field-set_field, same_text_refl))
]

pub patched-patched :
    (now later : ℕ) (body : CustomerUpdate) (c : Customer)
    → patched later body (patched now body c) ≡ patched now body c
patched-patched now later body c =
    let e = is_unchanged-patched now body c in unfold patched in rw e refl

pub columns_fit-patched :
    (now : ℕ) (body : CustomerUpdate) (c : Customer)
    → columns_fit (set_fields body (patched now body c)) ≡ columns_fit (set_fields body c)
unfolding patched
columns_fit-patched now body c = elim (Bool-cases (is_unchanged body c)) [
  | inl e ↦ rw e refl
  | inr e ↦ rw e (unfold set_fields columns_fit in simp set_field-set_field)
]

pub is_row-patched :
    (ctx : Context) (customer_id : String) (now : ℕ) (body : CustomerUpdate) (c : Customer)
    → is_row ctx customer_id (patched now body c) ≡ is_row ctx customer_id c
unfolding is_row
is_row-patched ctx customer_id now body c = let k = patched-keys now body c in rw (k.0, k.2) refl

-- The row of a phone that a request sees.
abbrev pub found_row : Context → ℕ → String → Customer → Bool
found_row ctx id phone c = is_visible ctx (some c.client_id) && has_phone id phone c

pub found_row-patched :
    (ctx : Context) (id : ℕ) (phone : String) (now : ℕ) (body : CustomerUpdate) (c : Customer)
    → found_row ctx id phone (patched now body c) ≡ found_row ctx id phone c
found_row-patched ctx id phone now body c =
    rw (patched-has_phone now body id phone c) (rw ((patched-keys now body c).0) refl)

pub found-is_row :
    (ctx : Context) (id : ℕ) (phone : String) (c : Customer)
    → found_row ctx id phone c ≡ true
    → is_row ctx c.id c ≡ true
unfolding is_row
found-is_row ctx id phone c h = ground (arith, eq_refl c.id)

pub write_customer-fit :
    (ctx : Context) (now : ℕ) (body : CustomerUpdate) (c : Customer) (cs : List Customer)
    → columns_fit (set_fields body c) ≡ true
    → write_customer ctx now body c cs
      ≡ (ok (patched now body c), set_where (is_row ctx c.id) (patched now body) cs)
unfolding write_customer
write_customer-fit ctx now body c cs fit = rw fit refl

pub write_customer-wide :
    (ctx : Context) (now : ℕ) (body : CustomerUpdate) (c : Customer) (cs : List Customer)
    → columns_fit (set_fields body c) ≡ false
    → write_customer ctx now body c cs ≡ (raised 500 "Internal Server Error", cs)
unfolding write_customer
write_customer-wide ctx now body c cs wide = rw wide refl

pub upsert-some :
    (ctx : Context) (now : ℕ) (fresh_id : String) (id : ℕ) (body : CustomerCreate)
    (clients : List Client) (c : Customer) (cs : List Customer)
    → upsert ctx now fresh_id id body clients cs (some c) ≡ write_customer ctx now body.fields c cs
unfolding upsert
upsert-some ctx now fresh_id id body clients c cs = refl

pub upsert-none :
    (ctx : Context) (now : ℕ) (fresh_id : String) (id : ℕ) (body : CustomerCreate)
    (clients : List Client) (cs : List Customer) {a : Reply Customer × List Customer}
    → upsert ctx now fresh_id id body clients cs none ≡ a
    → insert_customer ctx clients (new_customer now fresh_id id body) cs ≡ a
unfolding upsert
upsert-none ctx now fresh_id id body clients cs h = h

pub patched-same :
    (now : ℕ) (body : CustomerUpdate) (c : Customer)
    → is_unchanged body c ≡ true
    → patched now body c ≡ c
unfolding patched
patched-same now body c e = rw e refl

pub pair_of {ℓ κ} :
    {A : Type ℓ} {B : Type κ} {a a' : A} {b b' : B}
    → a ≡ a'
    → b ≡ b'
    → ◌≡◌ {A = A × B} (a, b) (a', b')
pair_of e e' = λ i. (e i, e' i)
