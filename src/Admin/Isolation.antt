-- ===== src/Admin/Isolation.antt =====
-- services/api/src/routers/admin.py: what a tenant_admin is shown by the listings and the lookups of /admin.
use ai_calling_agent.Prelude.{
  ℕ, ◌≡◌, refl, sym, ap, ◌∙◌, String, Bool, true, false, Option, none, some, List, eqb, arith,
  and_both, Bool-cases, inl, inr, if◌then◌else◌, All,
}
use ai_calling_agent.Prelude.Rows.{All-select_where}
use ai_calling_agent.Accounts.Models.{AuditLog, Caller, Reply, ok, raised, guarded, text_is}
use ai_calling_agent.Accounts.Tokens.{Claims}
use ai_calling_agent.Paging.{Paginated, is_page, listing, NewestFirst, All-listing, All-sort}
use ai_calling_agent.Portal.Access.{client_of}
use ai_calling_agent.Admin.Access.{require_admin, own_tenant, bound_tenant, is_bound}
use ai_calling_agent.Admin.Audit.{found_logs, list_audit_logs}
use ai_calling_agent.Admin.Logs.{found_calls, list_calls}

guarded-inv {ℓ κ} :
    {G : Type κ} {A : Type ℓ} (guard : Reply G) (handler : G → Reply A) (a : A)
    → guarded guard handler ≡ ok a
    → (g : G) × (guard ≡ ok g) × (handler g ≡ ok a)
unfolding guarded
guarded-inv (ok g) handler a h = (g, refl, h)
guarded-inv (raised code detail) handler a h = cc

then-ok {ℓ} :
    {A : Type ℓ} (a : A) (test : Bool) (x : Reply A) (code : ℕ) (detail : String)
    → (if test then x else raised code detail) ≡ ok a
    → x ≡ ok a
then-ok a true x code detail h = h
then-ok a false x code detail h = cc

require_admin-same : (user u : Claims) → require_admin user ≡ ok u → u ≡ user
unfolding require_admin
require_admin-same user u h = ground arith

own_tenant-ok :
    (c bound : Option ℕ)
    → own_tenant (client_of c) ≡ ok bound
    → (id : ℕ) × (bound ≡ some id) × (c ≡ some id)
unfolding own_tenant client_of
own_tenant-ok none bound h = cc
own_tenant-ok (some n) bound h = elim (Bool-cases (eqb n 0)) [
  | inl z ↦ let h' = rw z at h in cc h'
  | inr p ↦ let h' = rw p at h in (n, cc h', refl)
]

bound_tenant-ok :
    (user : Claims) (query bound : Option ℕ)
    → text_is user.role "tenant_admin" ≡ true
    → bound_tenant user query ≡ ok bound
    → (id : ℕ) × (bound ≡ some id) × (user.client_id ≡ some id)
unfolding bound_tenant
bound_tenant-ok user query bound own h =
    let h' : own_tenant (client_of user.client_id) ≡ ok bound = rw own at h in
    own_tenant-ok user.client_id bound h'

is_bound-some : (id : ℕ) (row : Option ℕ) → is_bound (some id) row ≡ true → row ≡ some id
unfolding is_bound
is_bound-some id none h = cc
is_bound-some id (some n) h = ground arith

-- The row of a tenant.
abbrev pub IsOwn : Claims → Option ℕ → Type 0
IsOwn user row = (id : ℕ) × (row ≡ some id) × (user.client_id ≡ some id)

found_logs-All :
    (user : Claims) (action : Option String) (id : ℕ) (logs : List AuditLog)
    → user.client_id ≡ some id
    → All (λ log. IsOwn user log.tenant_id) (found_logs user action (some id) logs)
unfolding found_logs
found_logs-All user action id logs same =
    All-select_where (λ (log : AuditLog). IsOwn user log.tenant_id) _ logs
      (λ log h. (id, is_bound-some id log.tenant_id ((and_both _ _ ((and_both _ _ h).1)).0), same))

found_calls-All :
    (ilike : String → String → Bool) (user : Claims) (search : Option String) (id : ℕ)
    (calls : List Caller)
    → user.client_id ≡ some id
    → All (λ call. IsOwn user call.client_id) (found_calls ilike user search (some id) calls)
unfolding found_calls
found_calls-All ilike user search id calls same =
    All-select_where (λ (call : Caller). IsOwn user call.client_id) _ calls
      (λ call h.
        (id, is_bound-some id call.client_id ((and_both _ _ ((and_both _ _ h).1)).0), same))

logs_shown :
    (order : NewestFirst AuditLog (λ log. log.occurred_at)) (page per_page : ℕ)
    (action : Option String) (user u : Claims) (query bound : Option ℕ) (logs : List AuditLog)
    (p : Paginated AuditLog)
    → text_is user.role "tenant_admin" ≡ true
    → u ≡ user
    → bound_tenant u query ≡ ok bound
    → ok (listing page per_page (order.sort (found_logs u action bound logs))) ≡ ok p
    → All (λ log. IsOwn user log.tenant_id) p.items
logs_shown order page per_page action user u query bound logs p own who g h =
    let g' = ap (λ (c : Claims). bound_tenant c query) (sym who) ∙ g in
    let (id, eb, same) = bound_tenant-ok user query bound own g' in
    let P : AuditLog → Type 0 = λ log. IsOwn user log.tenant_id in
    let e : listing page per_page (order.sort (found_logs u action bound logs)) ≡ p = cc h in
    rw (← e, who, eb)
      (All-listing P page per_page _ (All-sort P order _ (found_logs-All user action id logs same)))

calls_shown :
    (ilike : String → String → Bool) (page per_page : ℕ) (search : Option String) (user u : Claims)
    (query bound : Option ℕ) (calls : List Caller) (p : Paginated Caller)
    → text_is user.role "tenant_admin" ≡ true
    → u ≡ user
    → bound_tenant u query ≡ ok bound
    → ok (listing page per_page (found_calls ilike u search bound calls)) ≡ ok p
    → All (λ call. IsOwn user call.client_id) p.items
calls_shown ilike page per_page search user u query bound calls p own who g h =
    let g' = ap (λ (c : Claims). bound_tenant c query) (sym who) ∙ g in
    let (id, eb, same) = bound_tenant-ok user query bound own g' in
    let P : Caller → Type 0 = λ call. IsOwn user call.client_id in
    let e : listing page per_page (found_calls ilike u search bound calls) ≡ p = cc h in
    rw (← e, who, eb)
      (All-listing P page per_page _ (found_calls-All ilike user search id calls same))

-- A tenant_admin is shown the audit rows of the own tenant only, whatever tenant the query asks for; rows of
-- no tenant, which are the platform's, are never shown.
pub list_audit_logs-All :
    (order : NewestFirst AuditLog (λ log. log.occurred_at)) (page per_page : ℕ) (query : Option ℕ)
    (action : Option String) (user : Claims) (logs : List AuditLog) (p : Paginated AuditLog)
    → text_is user.role "tenant_admin" ≡ true
    → list_audit_logs order page per_page query action user logs ≡ ok p
    → All (λ log. IsOwn user log.tenant_id) p.items
unfolding list_audit_logs
list_audit_logs-All order page per_page query action user logs p own h =
    let (u, g, h1) = guarded-inv (require_admin user) _ p h in
    let h2 = then-ok p (is_page page per_page) _ 422 "Invalid query" h1 in
    let (bound, g2, h3) = guarded-inv (bound_tenant u query) _ p h2 in
    logs_shown order page per_page action user u query bound logs p own
      (require_admin-same user u g) g2 h3

-- A tenant_admin is shown the calls of the own tenant only, whatever tenant the query asks for.
pub tenant_admin-list_calls :
    (ilike : String → String → Bool) (page per_page : ℕ) (query : Option ℕ) (search : Option String)
    (user : Claims) (calls : List Caller) (p : Paginated Caller)
    → text_is user.role "tenant_admin" ≡ true
    → list_calls ilike page per_page query search user calls ≡ ok p
    → All (λ call. IsOwn user call.client_id) p.items
unfolding list_calls
tenant_admin-list_calls ilike page per_page query search user calls p own h =
    let (u, g, h1) = guarded-inv (require_admin user) _ p h in
    let h2 = then-ok p (is_page page per_page) _ 422 "Invalid query" h1 in
    let (bound, g2, h3) = guarded-inv (bound_tenant u query) _ p h2 in
    calls_shown ilike page per_page search user u query bound calls p own
      (require_admin-same user u g) g2 h3
