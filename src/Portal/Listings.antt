-- ===== src/Portal/Listings.antt =====
-- services/api/src/routers/client.py: what the listings of the portal show, page by page.
use mathlib.Core.List.{Perm}
use ai_calling_agent.Prelude.{
  ℕ, zero, suc, ◌≤◌, ◌≡◌, refl, sym, ap, ◌∙◌, String, Bool, true, Option, none, some, List, [], ◌∷◌,
  ◌++◌, select, arith, Bool-cases, inl, inr, All,
}
use ai_calling_agent.Prelude.Rows.{All-select, All-select_where}
use ai_calling_agent.Accounts.Models.{Caller, Reply, ok, raised, number_is, Reply-cases}
use ai_calling_agent.Accounts.Tokens.{Claims}
use ai_calling_agent.Accounts.Scope.{tenant_context, is_visible, tenant}
use ai_calling_agent.Paging.{
  Paginated, is_page, listing, pages, pages_all, NewestFirst, All-listing, All-sort,
}
use ai_calling_agent.Paging.Sorting.{
  sorted, sorted-perm, HasDistinctTimes, sort-eq-sorted, distinct-select,
}
use ai_calling_agent.Portal.Access.{require_client}
use ai_calling_agent.Portal.Calls.{list_calls, tenant_calls, if_search, call_matches}
use ai_calling_agent.Portal.Tenancy.{require_client-context}

module _ {ℓ} {A : Type ℓ} where
  items_of : Reply (Paginated A) → List A
  items_of (ok p) = p.items
  items_of (raised code detail) = []

  -- The rows that a browser shows which asks for `n` pages in turn, from page `page` on.
  unfoldable pub walk : (ℕ → Reply (Paginated A)) → ℕ → ℕ → List A
  unfolding items_of
  walk get zero page = []
  walk get (suc n) page = items_of (get page) ++ walk get n (suc page)

  walk-pages :
      (get : ℕ → Reply (Paginated A)) (per_page : ℕ) (rows : List A)
      → ((page : ℕ) → 1 ≤ page → get page ≡ ok (listing page per_page rows))
      → (n page : ℕ) → 1 ≤ page
      → walk get n page ≡ pages n page per_page rows
  unfolding walk pages listing items_of
  walk-pages get per_page rows h zero page p = refl
  walk-pages get per_page rows h (suc n) page p =
      rw (h page p, walk-pages get per_page rows h n (suc page) (omega arith)) refl

-- The rows of GET /client/calls, before they are cut into pages.
abbrev pub found_calls :
    (String → String → Bool) → Option String → Claims → ℕ → List Caller → List Caller
found_calls ilike search user id calls =
    select (if_search (call_matches ilike) search) (tenant_calls (tenant_context user) id calls)

-- The order in which a query's rows come.
abbrev pub CallOrder : Type 0
CallOrder = NewestFirst Caller (λ call. call.created_at)

is_page_lem :
    (page per_page : ℕ) → 1 ≤ page → 1 ≤ per_page → per_page ≤ 100 → is_page page per_page ≡ true
unfolding is_page
is_page_lem page per_page p q r = ground arith

list_calls-eq-listing :
    (order : CallOrder) (ilike : String → String → Bool) (page per_page : ℕ)
    (search : Option String) (user : Claims) (calls : List Caller) (id : ℕ)
    → require_client user ≡ ok id
    → 1 ≤ page
    → 1 ≤ per_page
    → per_page ≤ 100
    → list_calls order ilike page per_page search user calls
      ≡ ok (listing page per_page (order.sort (found_calls ilike search user id calls)))
unfolding list_calls
list_calls-eq-listing order ilike page per_page search user calls id e p q r =
    rw (e) (rw (is_page_lem page per_page p q r) refl)

visible_row : (id : ℕ) (c : Option ℕ) → is_visible (tenant id) c ≡ number_is c id
unfolding is_visible number_is
visible_row id none = refl
visible_row id (some n) = refl

number_is-eq : (c : Option ℕ) (id : ℕ) → number_is c id ≡ true → c ≡ some id
unfolding number_is
number_is-eq none id h = cc
number_is-eq (some n) id h = ground arith

tenant_calls-eq-select :
    (id : ℕ) (calls : List Caller)
    → tenant_calls (tenant id) id calls ≡ select (λ call. number_is call.client_id id) calls
unfolding tenant_calls select
tenant_calls-eq-select id [] = refl
tenant_calls-eq-select id (call ∷ calls) =
    ground (arith, tenant_calls-eq-select id calls, visible_row id call.client_id)

found_calls-HasDistinctTimes :
    (ilike : String → String → Bool) (search : Option String) (user : Claims) (id : ℕ)
    (calls : List Caller)
    → HasDistinctTimes (λ call. call.created_at) calls
    → HasDistinctTimes (λ call. call.created_at) (found_calls ilike search user id calls)
unfolding tenant_calls
found_calls-HasDistinctTimes ilike search user id calls h =
    distinct-select (λ call. call.created_at) (if_search (call_matches ilike) search) _
      (distinct-select (λ call. call.created_at) _ calls h)

-- A browser that asks GET /client/calls for every page that the first page announces is shown each call
-- of the token's tenant that matches the search exactly once, and no other, however the database orders
-- the rows of each request's query within ORDER BY created_at DESC. The calls do not change between the
-- requests, and no two of them were created at one time.
pub list_calls-walk-perm :
    (orders : ℕ → CallOrder) (ilike : String → String → Bool) (per_page : ℕ)
    (search : Option String) (user : Claims) (calls : List Caller) (id : ℕ)
    → require_client user ≡ ok id
    → 1 ≤ per_page
    → per_page ≤ 100
    → HasDistinctTimes (λ call. call.created_at) calls
    → (p : Paginated Caller) × (list_calls (orders 1) ilike 1 per_page search user calls ≡ ok p)
      × Perm
          (walk
            (λ page. list_calls (orders page) ilike page per_page search user calls)
            p.total_pages
            1)
          (select
            (if_search (call_matches ilike) search)
            (select (λ call. number_is call.client_id id) calls))
list_calls-walk-perm orders ilike per_page search user calls id e q r distinct =
    let found = found_calls ilike search user id calls in
    let apart = found_calls-HasDistinctTimes ilike search user id calls distinct in
    let rows = sorted (λ (call : Caller). call.created_at) found in
    let shown = λ (page : ℕ) (p : 1 ≤ page).
      list_calls-eq-listing (orders page) ilike page per_page search user calls id e p q r
      ∙ ap (λ (l : List Caller). ok (listing page per_page l))
          (sort-eq-sorted (λ (call : Caller). call.created_at) (orders page) found apart) in
    let whole =
      walk-pages (λ page. list_calls (orders page) ilike page per_page search user calls) per_page
        rows shown (listing 1 per_page rows).total_pages 1 (omega arith)
      ∙ pages_all per_page rows q in
    let same = ap (select (if_search (call_matches ilike) search)) (
      ap (λ c. tenant_calls c id calls) ((require_client-context user id e).0)
      ∙ tenant_calls-eq-select id calls) in
    (
      listing 1 per_page rows,
      shown 1 (omega arith),
      rw (whole, sym same) (∣ sorted-perm (λ (call : Caller). call.created_at) found ∣₁),
    )

list_calls-inv :
    (order : CallOrder) (ilike : String → String → Bool) (page per_page : ℕ)
    (search : Option String) (user : Claims) (calls : List Caller) (p : Paginated Caller)
    → list_calls order ilike page per_page search user calls ≡ ok p
    → (id : ℕ) × (require_client user ≡ ok id)
      × (p ≡ listing page per_page (order.sort (found_calls ilike search user id calls)))
unfolding list_calls
list_calls-inv order ilike page per_page search user calls p h =
    elim (Reply-cases (require_client user)) [
      | inr (code, detail, e) ↦ let h' = rw e at h in cc h'
      | inl (id, e) ↦
          let h' = rw e at h in
          elim (Bool-cases (is_page page per_page)) [
            | inl y ↦ let h'' = rw y at h' in (id, e, cc h'')
            | inr n ↦ let h'' = rw n at h' in cc h''
          ]
    ]

-- Every call that GET /client/calls shows is a call of the tenant that the token names, whatever page and
-- search the request asks for.
pub list_calls-All :
    (order : CallOrder) (ilike : String → String → Bool) (page per_page : ℕ)
    (search : Option String) (user : Claims) (calls : List Caller) (p : Paginated Caller)
    → list_calls order ilike page per_page search user calls ≡ ok p
    → All (λ call. call.client_id ≡ user.client_id) p.items
unfolding tenant_calls
list_calls-All order ilike page per_page search user calls p h =
    let (id, e, same) = list_calls-inv order ilike page per_page search user calls p h in
    let P : Caller → Type 0 = λ call. call.client_id ≡ user.client_id in
    let k = require_client-context user id e in
    rw same (
      All-listing P page per_page _ (
        All-sort P order _ (
          All-select P (if_search (call_matches ilike) search) _ (
            All-select_where P _ calls
              (λ call t. ground (arith, k.1, number_is-eq call.client_id id))))))
