-- ===== src/Jobs/Listing.antt =====
-- The worker's poll (`list_eligible_events` of services/api/src/routers/jobs.py).
use mathlib.Core.List.{Perm}
use mathlib.Core.List.Perm
use mathlib.Core.Path.{subst}
use ai_calling_agent.Prelude.{
  ℕ, ◌≤◌, ◌≡◌, refl, String, true, ◌&&◌, List, [], ◌∷◌, inl, inr, arith, All, All-take, length,
  length-take-le, take, select, leb, Bool-cases, one_of,
}
use ai_calling_agent.Models.{
  JobStatus, queued, processing, completed, failed, retrying, CallJob, job_status_text,
}
use ai_calling_agent.Jobs.Schema.{is_claimable, ok}
use ai_calling_agent.Jobs.Transitions.{
  Jobs, insert_by_available, sort_by_available, is_eligible, list_eligible_events, can_claim,
}

-- Each row is available no later than the rows after it.
abbrev pub IsSorted : Jobs → Type 0
IsSorted [] = Unit
IsSorted (x ∷ xs) = All (λ y. x.available_at ≤ y.available_at) xs × IsSorted xs

All-weaken :
    (m n : ℕ) (xs : Jobs)
    → m ≤ n
    → All (λ y. n ≤ y.available_at) xs
    → All (λ y. m ≤ y.available_at) xs
All-weaken m n [] h a = tt
All-weaken m n (x ∷ xs) h a = (omega arith, All-weaken m n xs h a.1)

All-insert {ℓ} :
    (P : CallJob → Type ℓ) (x : CallJob) (xs : Jobs)
    → P x
    → All P xs
    → All P (insert_by_available x xs)
unfolding insert_by_available
All-insert P x [] p a = (p, tt)
All-insert P x (y ∷ ys) p a = ground (arith, All-insert P x ys p a.1)

insert-IsSorted : (x : CallJob) (xs : Jobs) → IsSorted xs → IsSorted (insert_by_available x xs)
unfolding insert_by_available
insert-IsSorted x [] s = (tt, tt)
insert-IsSorted x (y ∷ ys) s = ground (
  arith,
  All-weaken x.available_at y.available_at ys,
  All-insert (λ z. y.available_at ≤ z.available_at) x ys,
  insert-IsSorted x ys,
)

sort-IsSorted : (xs : Jobs) → IsSorted (sort_by_available xs)
unfolding sort_by_available
sort-IsSorted [] = tt
sort-IsSorted (x ∷ xs) = insert-IsSorted x (sort_by_available xs) (sort-IsSorted xs)

insert-perm : (x : CallJob) (xs : Jobs) → Perm (insert_by_available x xs) (x ∷ xs)
unfolding insert_by_available
insert-perm x [] = Perm.refl (x ∷ [])
insert-perm x (y ∷ ys) = elim (Bool-cases (leb x.available_at y.available_at)) [
  | inl e ↦ rw e (Perm.refl (x ∷ y ∷ ys))
  | inr e ↦ rw e (Perm.trans (Perm.cons y (insert-perm x ys)) (Perm.swap x y ys))
]

sort-perm : (xs : Jobs) → Perm (sort_by_available xs) xs
unfolding sort_by_available
sort-perm [] = Perm.refl []
sort-perm (x ∷ xs) = Perm.trans (insert-perm x (sort_by_available xs)) (Perm.cons x (sort-perm xs))

-- A poll within its limits answers the first rows, at most `limit`, of the eligible rows in the order
-- in which they became available.
pub list_eligible_events-IsSorted :
    (statuses : List String) (limit now : ℕ) (jobs : Jobs)
    → 1 ≤ limit
    → limit ≤ 200
    → (order : Jobs) × (list_eligible_events statuses limit now jobs ≡ ok (take limit order))
      × IsSorted order
      × Perm order (select (is_eligible statuses now) jobs)
      × (length (take limit order) ≤ limit)
unfolding list_eligible_events
list_eligible_events-IsSorted statuses limit now jobs low high = (
  sort_by_available (select (is_eligible statuses now) jobs),
  ground arith,
  sort-IsSorted (select (is_eligible statuses now) jobs),
  sort-perm (select (is_eligible statuses now) jobs),
  length-take-le limit (sort_by_available (select (is_eligible statuses now) jobs)),
)

abbrev pub default_statuses : List String
default_statuses = "queued" ∷ "retrying" ∷ []

is_eligible_default :
    (now : ℕ) (job : CallJob) → is_eligible default_statuses now job ≡ can_claim now job
unfolding is_eligible one_of job_status_text can_claim is_claimable
is_eligible_default now job = go job.status
  where
    go :
        (s : JobStatus)
        → (one_of (job_status_text s) default_statuses && leb job.available_at now)
          ≡ (is_claimable s && leb job.available_at now)
    go queued = refl
    go processing = refl
    go completed = refl
    go failed = refl
    go retrying = refl

All-select :
    (now : ℕ) (jobs : Jobs)
    → All (λ job. can_claim now job ≡ true) (select (is_eligible default_statuses now) jobs)
unfolding select
All-select now [] = tt
All-select now (x ∷ xs) = elim (Bool-cases (can_claim now x)) [
  | inl e ↦ rw (is_eligible_default now x, e) (e, All-select now xs)
  | inr e ↦ rw (is_eligible_default now x, e) (All-select now xs)
]

All-sort {ℓ} : (P : CallJob → Type ℓ) (xs : Jobs) → All P xs → All P (sort_by_available xs)
unfolding sort_by_available
All-sort P [] a = tt
All-sort P (x ∷ xs) a = All-insert P x (sort_by_available xs) a.0 (All-sort P xs a.1)

-- Every job that a poll with the default statuses lists may be claimed at that moment.
pub list_eligible_events-can_claim :
    (limit now : ℕ) (jobs rows : Jobs)
    → list_eligible_events default_statuses limit now jobs ≡ ok rows
    → All (λ job. can_claim now job ≡ true) rows
unfolding list_eligible_events
list_eligible_events-can_claim limit now jobs rows e =
    let found = select (is_eligible default_statuses now) jobs in
    let taken : take limit (sort_by_available found) ≡ rows = ground arith in
    subst (All (λ job. can_claim now job ≡ true)) taken (
      All-take (λ job. can_claim now job ≡ true) limit (sort_by_available found)
        (All-sort (λ job. can_claim now job ≡ true) found (All-select now jobs)))
