-- ===== src/Portal/Upserts.antt =====
-- services/api/src/routers/client.py: `create_or_update_customer`, called again.
use ai_calling_agent.Prelude.{
  and_both, not_found, ℕ, ◌≡◌, refl, sym, ap, ◌∙◌, String, true, ◌==◌, eq_refl, none, some, List,
  [], ◌∷◌, arith, Bool-cases, Option-cases, inl, inr,
}
use ai_calling_agent.Prelude.Rows.{
  first, set_where, first-set_where, first-some, set_where-set_where, set_where-none,
}
use ai_calling_agent.Accounts.Models.{Client, Customer, ok, guarded_write-inv, guarded_write-ok}
use ai_calling_agent.Accounts.Tokens.{Claims}
use ai_calling_agent.Accounts.Scope.{Context, tenant_context, is_visible}
use ai_calling_agent.Portal.Access.{require_client}
use ai_calling_agent.Portal.Customers.{
  CustomerCreate, is_row, set_fields, is_unchanged, patched, columns_fit, write_customer,
  new_customer, has_phone, is_insertable, insert_customer, upsert, create_or_update_customer,
}
use ai_calling_agent.Portal.Contacts.{patched-keys}
use ai_calling_agent.Portal.Patches.{
  same_text_refl, set_field_self, patched-patched, columns_fit-patched, is_row-patched, found_row,
  found_row-patched, found-is_row, write_customer-fit, write_customer-wide, upsert-some,
  upsert-none, patched-same, pair_of,
}

module _ (ctx : Context) (id now later : ℕ) (body : CustomerCreate) where
  -- The row that an earlier call has written is found again, and a second write changes nothing.
  found_again :
      (c : Customer) (cs : List Customer)
      → first (found_row ctx id body.phone) cs ≡ some c
      → first
          (found_row ctx id body.phone)
          (set_where (is_row ctx c.id) (patched now body.fields) cs)
        ≡ some (patched now body.fields c)
  found_again c cs h =
      let mine =
        found-is_row ctx id body.phone c (first-some (found_row ctx id body.phone) cs c h) in
      first-set_where (found_row ctx id body.phone) (is_row ctx c.id) (patched now body.fields) cs
        (found_row-patched ctx id body.phone now body.fields)
      ∙ (rw (h, mine) refl)

  write_again :
      (c : Customer) (cs : List Customer)
      → columns_fit (set_fields body.fields c) ≡ true
      → write_customer ctx later body.fields
          (patched now body.fields c)
          (set_where (is_row ctx c.id) (patched now body.fields) cs)
        ≡ (ok (patched now body.fields c), set_where (is_row ctx c.id) (patched now body.fields) cs)
  write_again c cs fit =
      let same =
        set_where-set_where (is_row ctx c.id) (patched now body.fields) (patched later body.fields)
          cs (λ x _. patched-patched now later body.fields x)
          (is_row-patched ctx c.id now body.fields) in
      write_customer-fit ctx later body.fields (patched now body.fields c)
        (set_where (is_row ctx c.id) (patched now body.fields) cs)
        (columns_fit-patched now body.fields c ∙ fit)
      ∙ (simp ((patched-keys now body.fields c).2, patched-patched now later body.fields c, same))

  new-unchanged :
      (fresh_id : String) → is_unchanged body.fields (new_customer now fresh_id id body) ≡ true
  unfolding is_unchanged new_customer
  new-unchanged fresh_id = simp (set_field_self, same_text_refl)

  new-columns_fit :
      (fresh_id : String)
      → columns_fit (set_fields body.fields (new_customer now fresh_id id body))
        ≡ columns_fit (new_customer now fresh_id id body)
  unfolding columns_fit set_fields new_customer
  new-columns_fit fresh_id = simp set_field_self

  is_row-none :
      (fresh_id : String) (cs : List Customer)
      → first (λ c. c.id == fresh_id) cs ≡ none
      → first (is_row ctx fresh_id) cs ≡ none
  unfolding first is_row
  is_row-none fresh_id [] h = refl
  is_row-none fresh_id (c ∷ cs) h = ground (arith, is_row-none fresh_id cs)

  row-of-write :
      (c : Customer) (cs : List Customer) (r : Customer) (t : List Customer)
      → write_customer ctx now body.fields c cs ≡ (ok r, t)
      → (columns_fit (set_fields body.fields c) ≡ true)
        × (r ≡ patched now body.fields c)
        × (t ≡ set_where (is_row ctx c.id) (patched now body.fields) cs)
  row-of-write c cs r t h = elim (Bool-cases (columns_fit (set_fields body.fields c))) [
    | inl fit ↦ let e = sym h ∙ write_customer-fit ctx now body.fields c cs fit in (fit, cc e, cc e)
    | inr wide ↦ cc (sym h ∙ write_customer-wide ctx now body.fields c cs wide)
  ]

  row-of-insert :
      (clients : List Client) (c : Customer) (cs : List Customer) (r : Customer) (t : List Customer)
      → insert_customer ctx clients c cs ≡ (ok r, t)
      → (is_insertable ctx clients cs c ≡ true) × (r ≡ c) × (t ≡ c ∷ cs)
  unfolding insert_customer
  row-of-insert clients c cs r t h = elim (Bool-cases (is_insertable ctx clients cs c)) [
    | inl y ↦ let h' = rw y at h in (y, cc h', cc h')
    | inr n ↦ let h' = rw n at h in cc h'
  ]

  insertable-facts :
      (clients : List Client) (c : Customer) (cs : List Customer)
      → is_insertable ctx clients cs c ≡ true
      → (columns_fit c ≡ true)
        × (first (λ other. other.id == c.id) cs ≡ none)
        × (is_visible ctx (some c.client_id) ≡ true)
  unfolding is_insertable
  insertable-facts clients c cs h =
      let (fit, h1) = and_both _ _ h in
      let (fresh, h2) = and_both _ _ h1 in
      let (_, h3) = and_both _ _ h2 in
      let (_, seen) = and_both _ _ h3 in (fit, not_found _ fresh, seen)

  new-found :
      (fresh_id : String) (cs : List Customer)
      → is_visible ctx (some id) ≡ true
      → first (found_row ctx id body.phone) (new_customer now fresh_id id body ∷ cs)
        ≡ some (new_customer now fresh_id id body)
  unfolding first new_customer has_phone
  new-found fresh_id cs seen = ground (arith, eq_refl body.phone)

  new-is_row :
      (fresh_id : String) (f : Customer → Customer) (cs : List Customer)
      → first (is_row ctx fresh_id) cs ≡ none
      → f (new_customer now fresh_id id body) ≡ new_customer now fresh_id id body
      → set_where (is_row ctx fresh_id) f (new_customer now fresh_id id body ∷ cs)
        ≡ new_customer now fresh_id id body ∷ cs
  unfolding set_where
  new-is_row fresh_id f cs none_there same =
      let rest = set_where-none (is_row ctx fresh_id) f cs none_there in ground (arith, rest)

  again_new :
      (fresh_id other_id : String) (clients clients' : List Client) (cs : List Customer)
      (r : Customer) (t : List Customer)
      → upsert ctx now fresh_id id body clients cs none ≡ (ok r, t)
      → upsert ctx later other_id id body clients' t (first (found_row ctx id body.phone) t)
        ≡ (ok r, t)
  unfolding new_customer
  again_new fresh_id other_id clients clients' cs r t h =
      let n = new_customer now fresh_id id body in
      let (y, er, et) =
        row-of-insert clients n cs r t (upsert-none ctx now fresh_id id body clients cs h) in
      let (fit, fresh, seen) = insertable-facts clients n cs y in
      let same = patched-same later body.fields n (new-unchanged fresh_id) in
      rw (er, et)
        (ap (upsert ctx later other_id id body clients' (n ∷ cs)) (new-found fresh_id cs seen)
          ∙ upsert-some ctx later other_id id body clients' n (n ∷ cs)
          ∙ write_customer-fit ctx later body.fields n (n ∷ cs) (new-columns_fit fresh_id ∙ fit)
          ∙ pair_of (ap ok same) (
              new-is_row fresh_id (patched later body.fields) cs (is_row-none fresh_id cs fresh)
                same))

  again_old :
      (c : Customer) (fresh_id other_id : String) (clients clients' : List Client)
      (cs : List Customer) (r : Customer) (t : List Customer)
      → first (found_row ctx id body.phone) cs ≡ some c
      → write_customer ctx now body.fields c cs ≡ (ok r, t)
      → upsert ctx later other_id id body clients' t (first (found_row ctx id body.phone) t)
        ≡ (ok r, t)
  again_old c fresh_id other_id clients clients' cs r t found h =
      let (fit, er, et) = row-of-write c cs r t h in
      rw (er, et)
        (ap (upsert ctx later other_id id body clients' _) (found_again c cs found)
          ∙ upsert-some ctx later other_id id body clients' (patched now body.fields c) _
          ∙ write_again c cs fit)

  upsert_again :
      (fresh_id other_id : String) (clients clients' : List Client) (cs : List Customer)
      (r : Customer) (t : List Customer)
      → upsert ctx now fresh_id id body clients cs (first (found_row ctx id body.phone) cs)
        ≡ (ok r, t)
      → upsert ctx later other_id id body clients' t (first (found_row ctx id body.phone) t)
        ≡ (ok r, t)
  upsert_again fresh_id other_id clients clients' cs r t h =
      elim (Option-cases (first (found_row ctx id body.phone) cs)) [
        | inl e ↦
            again_new fresh_id other_id clients clients' cs r t
              (ap (upsert ctx now fresh_id id body clients cs) (sym e) ∙ h)
        | inr (c, e) ↦ again_old c fresh_id other_id clients clients' cs r t e (
            sym (upsert-some ctx now fresh_id id body clients c cs)
            ∙ ap (upsert ctx now fresh_id id body clients cs) (sym e)
            ∙ h)
      ]

-- The request that answered `ok`, sent again at a later time, is answered with the same row, and the table
-- is left exactly as it was: no second row, no column and no time of change differs, whatever id would be
-- drawn and whatever has become of the clients.
pub create_or_update_customer-create_or_update_customer :
    (now later : ℕ) (fresh_id other_id : String) (body : CustomerCreate) (user : Claims)
    (clients clients' : List Client) (cs : List Customer) (r : Customer) (t : List Customer)
    → create_or_update_customer now fresh_id body user clients cs ≡ (ok r, t)
    → create_or_update_customer later other_id body user clients' t ≡ (ok r, t)
unfolding create_or_update_customer
create_or_update_customer-create_or_update_customer now later fresh_id other_id body user clients
      clients' cs r t h =
    let (id, e, h') = guarded_write-inv (require_client user) cs _ r t h in
    guarded_write-ok (require_client user) t _ id e
    ∙ upsert_again (tenant_context user) id now later body fresh_id other_id clients clients' cs r t
        h'
