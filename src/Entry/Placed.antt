-- ===== src/Entry/Placed.antt =====
-- services/api/src/main.py with services/api/src/routers/client.py: a call that was placed, as the portals of
-- the tenants show it.
use ai_calling_agent.Prelude.{
  ℕ, ◌≡◌, refl, sym, ap, ◌∙◌, String, Bool, true, false, ◌&&◌, Option, none, some, List, [], ◌∷◌,
  eqb, arith, and_both, not_found, Bool-cases, inl, inr, if◌then◌else◌,
}
use ai_calling_agent.Prelude.Rows.{first}
use ai_calling_agent.Gateway.Redis.{Redis}
use ai_calling_agent.Accounts.Models.{Caller, Accounts, Reply, ok, raised, guarded_write-inv}
use ai_calling_agent.Accounts.Tokens.{Claims}
use ai_calling_agent.Accounts.Scope.{tenant, tenant_context, is_visible}
use ai_calling_agent.Portal.Access.{require_client}
use ai_calling_agent.Portal.Calls.{get_call, own_call}
use ai_calling_agent.Portal.Tenancy.{require_client-context}
use ai_calling_agent.Entry.Phone.{CallerRequest, validated, cleaned, is_e164}
use ai_calling_agent.Entry.Calls.{
  new_caller, is_callable, CallPlaced, save_session, session_of, place, make_call,
}

-- The row that a tenant's portal finds under an id.
abbrev row_of : ℕ → ℕ → Caller → Bool
row_of id call_id call = is_visible (tenant id) call.client_id && eqb call.id call_id

-- What no request finds under an id, no tenant does.
no_row :
    (id call_id : ℕ) (calls : List Caller)
    → first (λ other. eqb other.id call_id) calls ≡ none
    → first (row_of id call_id) calls ≡ none
unfolding first
no_row id call_id [] h = refl
no_row id call_id (call ∷ calls) h = ground (arith, no_row id call_id calls)

placed-found :
    (owner id : ℕ) (call : Caller) (calls : List Caller)
    → call.client_id ≡ some owner
    → first (λ other. eqb other.id call.id) calls ≡ none
    → own_call id (first (row_of id call.id) (call ∷ calls))
      ≡ (if eqb owner id then ok call else raised 404 "Call not found")
unfolding first own_call is_visible
placed-found owner id call calls mine fresh = ground (arith, no_row id call.id calls)

get_call-tenant :
    (call_id id : ℕ) (reader : Claims) (calls : List Caller)
    → require_client reader ≡ ok id
    → get_call call_id reader calls ≡ own_call id (first (row_of id call_id) calls)
unfolding get_call
get_call-tenant call_id id reader calls h = rw (h, (require_client-context reader id h).0) refl

module _ (R : Redis CallerRequest) (now fresh_id : ℕ) (session_id : String) (user : Claims)
    (request : CallerRequest) where
  place-yes :
      (db : Accounts) (redis : Option R.Store)
      → is_callable (tenant_context user) (new_caller now fresh_id user.client_id request) db ≡ true
      → place R now fresh_id session_id user request (db, redis) ≡ (
        ok (record { redis_session = session_of R session_id redis }),
        (
          record db { callers = new_caller now fresh_id user.client_id request ∷ db.callers },
          save_session R session_id request redis,
        ),
      )
  unfolding place
  place-yes db redis y = rw y refl

  place-no :
      (db : Accounts) (redis : Option R.Store)
      → is_callable (tenant_context user) (new_caller now fresh_id user.client_id request) db
        ≡ false
      → place R now fresh_id session_id user request (db, redis)
        ≡ (raised 500 "Internal Server Error", (db, redis))
  unfolding place
  place-no db redis n = rw n refl

  callable-fresh :
      (db : Accounts)
      → is_callable (tenant_context user) (new_caller now fresh_id user.client_id request) db ≡ true
      → first (λ other. eqb other.id fresh_id) db.callers ≡ none
  unfolding is_callable new_caller
  callable-fresh db y = not_found _ ((and_both _ _ y).0)

  placed :
      (db : Accounts) (redis : Option R.Store) (answer : CallPlaced)
      (state' : Accounts × Option R.Store)
      → place R now fresh_id session_id user request (db, redis) ≡ (ok answer, state')
      → (first (λ other. eqb other.id fresh_id) db.callers ≡ none)
        × (state'.0.callers ≡ new_caller now fresh_id user.client_id request ∷ db.callers)
  placed db redis answer state' h =
      elim (Bool-cases
        (is_callable (tenant_context user) (new_caller now fresh_id user.client_id request) db)) [
          | inl y ↦ (
            callable-fresh db y,
            ap (λ (r : Reply CallPlaced × (Accounts × Option R.Store)). r.1.0.callers)
                (sym h ∙ place-yes db redis y),
          )
          | inr n ↦
              let e =
                ap (λ (r : Reply CallPlaced × (Accounts × Option R.Store)). r.0)
                  (sym h ∙ place-no db redis n) in
              cc e
        ]

-- The number that a request is placed with.
validated-ok :
    (request r : CallerRequest)
    → validated request ≡ ok r
    → r ≡ record request { phone_number = cleaned request.phone_number }
unfolding validated
validated-ok request r h = elim (Bool-cases (is_e164 (cleaned request.phone_number))) [
  | inl y ↦ let h' = rw y at h in cc h'
  | inr n ↦ let h' = rw n at h in cc h'
]

shown_new :
    (owner id now fresh_id : ℕ) (r : CallerRequest) (calls : List Caller)
    → first (λ other. eqb other.id fresh_id) calls ≡ none
    → own_call id (first (row_of id fresh_id) (new_caller now fresh_id (some owner) r ∷ calls)) ≡ (
        if eqb owner id
        then ok (new_caller now fresh_id (some owner) r)
        else raised 404 "Call not found")
unfolding new_caller
shown_new owner id now fresh_id r calls fresh =
    placed-found owner id (new_caller now fresh_id (some owner) r) calls refl fresh

shown_to :
    (owner id now fresh_id : ℕ) (client_id : Option ℕ) (r r' : CallerRequest)
    (calls calls' : List Caller) (reader : Claims)
    → client_id ≡ some owner
    → r ≡ r'
    → first (λ other. eqb other.id fresh_id) calls ≡ none
    → calls' ≡ new_caller now fresh_id client_id r ∷ calls
    → require_client reader ≡ ok id
    → get_call fresh_id reader calls' ≡ (
        if eqb owner id
        then ok (new_caller now fresh_id (some owner) r')
        else raised 404 "Call not found")
shown_to owner id now fresh_id client_id r r' calls calls' reader mine same fresh rows h =
    ap (get_call fresh_id reader) rows
    ∙ ap (λ (c : Option ℕ). get_call fresh_id reader (new_caller now fresh_id c r ∷ calls)) mine
    ∙ ap
        (λ (x : CallerRequest).
          get_call fresh_id reader (new_caller now fresh_id (some owner) x ∷ calls))
        same
    ∙ get_call-tenant fresh_id id reader (new_caller now fresh_id (some owner) r' ∷ calls) h
    ∙ shown_new owner id now fresh_id r' calls fresh

-- A call that a client's token places by POST /call is shown by GET /client/calls/{call_id} to the clients of
-- the same tenant, with its number without separators, and to those of no other tenant: they get a 404.
pub make_call-get_call :
    (R : Redis CallerRequest) (now fresh_id : ℕ) (session_id : String) (user reader : Claims)
    (owner id : ℕ) (request : CallerRequest) (db : Accounts) (redis : Option R.Store)
    (answer : CallPlaced) (state' : Accounts × Option R.Store)
    → require_client user ≡ ok owner
    → require_client reader ≡ ok id
    → make_call R now fresh_id session_id user request (db, redis) ≡ (ok answer, state')
    → get_call fresh_id reader state'.0.callers ≡ (
        if eqb owner id
        then ok (
            new_caller now fresh_id
              (some owner)
              (record request { phone_number = cleaned request.phone_number }))
        else raised 404 "Call not found")
unfolding make_call
make_call-get_call R now fresh_id session_id user reader owner id request db redis answer state' u v
      h =
    let (r, valid, h') = guarded_write-inv (validated request) (db, redis) _ answer state' h in
    let (fresh, rows) = placed R now fresh_id session_id user r db redis answer state' h' in
    shown_to owner id now fresh_id user.client_id r
      (record request { phone_number = cleaned request.phone_number }) db.callers state'.0.callers
      reader ((require_client-context user owner u).1) (validated-ok request r valid) fresh rows v
