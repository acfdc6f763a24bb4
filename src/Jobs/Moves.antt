-- ===== src/Jobs/Moves.antt =====
-- What each request to the API of services/api/src/routers/jobs.py may make of a row, written out beside the
-- handlers: by the columns and the clock, without their guards and SET clauses.
use Prim.Native.String.{count}
use native.Mathlib.Nat.{one-le-pow}
use ai_calling_agent.Prelude.{
  ℕ, ◌+◌, ◌-◌, ◌^◌, max, sym, ap, ◌∙◌, ◌≤◌, ◌<◌, ◌≡◌, ◌⊎◌, refl, String, true, ◌≢◌, false, none,
  some, inl, inr, arith, eq_iff, Bool-cases, ◌==◌, ltb, leb,
}
use ai_calling_agent.Prelude.Table.{get, key-get}
use ai_calling_agent.Models.{
  queued, processing, completed, failed, retrying, CallJob, job_key, Database, Clock, seconds,
}
use ai_calling_agent.Jobs.Schema.{
  is_claimable, is_processing, backoff_seconds, truncate_error, EventFailRequest, is_valid_fail,
}
use ai_calling_agent.Jobs.Transitions.{
  can_claim, claimed, done_at, can_retry, failed_row, is_stale, reaped_row, reap_row,
}
use ai_calling_agent.Jobs.Machine.{
  Request, create, claim, complete, fail, reap, step, row_after, get-step,
}

-- A claim of job `id` at time `now` takes a waiting job that is due, and counts the attempt.
pub data Claims (now : ℕ) (id : String) (r r' : CallJob) : Type 0 where
  takes :
      r.job_id ≡ id
      → (r.status ≡ queued) ⊎ (r.status ≡ retrying)
      → r.available_at ≤ now
      → r' ≡ record r { status = processing; attempts = r.attempts + 1; updated_at = now }
      → Claims now id r r'
  other : r.job_id ≢ id → r' ≡ r → Claims now id r r'
  not_waiting : r.status ≢ queued → r.status ≢ retrying → r' ≡ r → Claims now id r r'
  not_due : now < r.available_at → r' ≡ r → Claims now id r r'

-- A completion ends a job in processing.
pub data Completes (now : ℕ) (id : String) (r r' : CallJob) : Type 0 where
  ends :
      r.job_id ≡ id
      → r.status ≡ processing
      → r' ≡ record r { status = completed; processed_at = some now; updated_at = now }
      → Completes now id r r'
  other : r.job_id ≢ id → r' ≡ r → Completes now id r r'
  not_busy : r.status ≢ processing → r' ≡ r → Completes now id r r'

-- A failure report with a text sets a job in processing to be retried in 5 to 300 seconds, where the
-- report wants it and an attempt is left, and to failed otherwise.
pub data Fails (now : Clock) (id : String) (body : EventFailRequest) (r r' : CallJob) : Type 0 where
  retries :
      r.job_id ≡ id
      → r.status ≡ processing
      → body.retry ≡ true
      → r.attempts < r.max_attempts
      → now.utc + seconds 5 ≤ r'.available_at
      → r'.available_at ≤ now.utc + seconds 300
      → r' ≡ record r {
        status = retrying;
        last_error = some (truncate_error body.error);
        available_at = r'.available_at;
        updated_at = now.db;
      }
      → Fails now id body r r'
  gives_up :
      r.job_id ≡ id
      → r.status ≡ processing
      → (body.retry ≡ false) ⊎ (r.max_attempts ≤ r.attempts)
      → r' ≡ record r {
        status = failed;
        last_error = some (truncate_error body.error);
        updated_at = now.db;
        processed_at = some now.db;
      }
      → Fails now id body r r'
  other : r.job_id ≢ id → r' ≡ r → Fails now id body r r'
  not_busy : r.status ≢ processing → r' ≡ r → Fails now id body r r'
  no_text : count body.error < 1 → r' ≡ r → Fails now id body r r'

-- A sweep takes a job back that has been in processing for more than 120 seconds: it may be claimed from
-- then on where an attempt is left, and is failed otherwise.
pub data Sweeps (now : Clock) (r r' : CallJob) : Type 0 where
  recovers :
      r.status ≡ processing
      → r.updated_at + seconds 120 < now.utc
      → r.attempts < r.max_attempts
      → r' ≡ record r {
        status = retrying;
        available_at = now.db;
        processed_at = none;
        last_error = r'.last_error;
        updated_at = now.db;
      }
      → Sweeps now r r'
  gives_up :
      r.status ≡ processing
      → r.updated_at + seconds 120 < now.utc
      → r.max_attempts ≤ r.attempts
      → r' ≡ record r {
        status = failed;
        available_at = now.db;
        processed_at = some now.db;
        last_error = r'.last_error;
        updated_at = now.db;
      }
      → Sweeps now r r'
  not_busy : r.status ≢ processing → r' ≡ r → Sweeps now r r'
  not_stale : now.utc ≤ r.updated_at + seconds 120 → r' ≡ r → Sweeps now r r'

abbrev pub Moves : Request → CallJob → CallJob → Type 0
Moves (create now fresh_id body) r r' = r' ≡ r
Moves (claim now id) r r' = Claims now id r r'
Moves (complete now id) r r' = Completes now id r r'
Moves (fail now id body) r r' = Fails now id body r r'
Moves (reap now) r r' = Sweeps now r r'

ne_of_test : (id : String) (r : CallJob) → (id == r.job_id) ≡ false → r.job_id ≢ id
ne_of_test id r n = λ e. ground (arith, eq_iff id r.job_id)

open_status :
    (r : CallJob) → is_claimable r.status ≡ true → (r.status ≡ queued) ⊎ (r.status ≡ retrying)
unfolding is_claimable
open_status r y = ground arith

claim-Moves :
    (now : ℕ) (id : String) (r : CallJob) → Claims now id r (row_after (claim now id) r.job_id r)
unfolding row_after can_claim is_claimable claimed
claim-Moves now id r = elim (Bool-cases (id == r.job_id)) [
  | inr n ↦ other (ne_of_test id r n) (ground arith)
  | inl same ↦ elim (Bool-cases (is_claimable r.status)) [
    | inr n ↦ not_waiting (λ e. ground arith) (λ e. ground arith) (ground arith)
    | inl y ↦ elim (Bool-cases (leb r.available_at now)) [
      | inr n ↦ not_due (ground arith) (ground arith)
      | inl due ↦
          takes (ground (arith, eq_iff id r.job_id)) (open_status r y) (ground arith) (ground arith)
    ]
  ]
]

processing_of_test : (r : CallJob) → is_processing r.status ≡ true → r.status ≡ processing
unfolding is_processing
processing_of_test r y = ground arith

idle_of_test : (r : CallJob) → is_processing r.status ≡ false → r.status ≢ processing
unfolding is_processing
idle_of_test r n = λ e. ground arith

complete-Moves :
    (now : ℕ) (id : String) (r : CallJob)
    → Completes now id r (row_after (complete now id) r.job_id r)
unfolding row_after done_at
complete-Moves now id r = elim (Bool-cases (id == r.job_id)) [
  | inr n ↦ other (ne_of_test id r n) (ground arith)
  | inl same ↦ elim (Bool-cases (is_processing r.status)) [
    | inr n ↦ not_busy (idle_of_test r n) (ground arith)
    | inl y ↦ ends (ground (arith, eq_iff id r.job_id)) (processing_of_test r y) (ground arith)
  ]
]

-- The delay of a retry is between its base and its cap.
backoff_bounds : (n : ℕ) → (5 ≤ backoff_seconds n) × (backoff_seconds n ≤ 300)
unfolding backoff_seconds
backoff_bounds n =
    let low : 1 ≤ 2 ^ max (n - 1) 0 = one-le-pow (max (n - 1) 0) 2 (omega arith) in
    (ground arith, ground arith)

no_retry :
    (body : EventFailRequest) (r : CallJob)
    → can_retry body r ≡ false
    → (body.retry ≡ false) ⊎ (r.max_attempts ≤ r.attempts)
unfolding can_retry
no_retry body r n = elim (Bool-cases body.retry) [ inr f ↦ inl f | inl t ↦ inr (ground arith) ]

fail-Moves :
    (now : Clock) (id : String) (body : EventFailRequest) (r : CallJob)
    → Fails now id body r (row_after (fail now id body) r.job_id r)
unfolding row_after failed_row is_valid_fail
fail-Moves now id body r = elim (Bool-cases (id == r.job_id)) [
  | inr n ↦ other (ne_of_test id r n) (ground arith)
  | inl same ↦ elim (Bool-cases (leb 1 (count body.error))) [
    | inr n ↦ no_text (ground arith) (ground arith)
    | inl text ↦ elim (Bool-cases (is_processing r.status)) [
      | inr n ↦ not_busy (idle_of_test r n) (ground arith)
      | inl y ↦ elim (Bool-cases (can_retry body r)) [
        | inr n ↦
            gives_up (ground (arith, eq_iff id r.job_id)) (processing_of_test r y)
              (no_retry body r n) (ground arith)
        | inl again ↦
            let (low, high) = backoff_bounds r.attempts in
            retries (ground (arith, eq_iff id r.job_id)) (processing_of_test r y)
              (unfold can_retry in ground arith) (unfold can_retry in ground arith) (ground arith)
              (ground arith) (ground arith)
      ]
    ]
  ]
]

reap-Moves : (now : Clock) (r : CallJob) → Sweeps now r (row_after (reap now) r.job_id r)
unfolding row_after reap_row is_stale reaped_row
reap-Moves now r = elim (Bool-cases (is_processing r.status)) [
  | inr n ↦ not_busy (idle_of_test r n) (ground arith)
  | inl y ↦ elim (Bool-cases (ltb (r.updated_at + seconds 120) now.utc)) [
    | inr n ↦ not_stale (ground arith) (ground arith)
    | inl old ↦ elim (Bool-cases (ltb r.attempts r.max_attempts)) [
      | inl left ↦ recovers (processing_of_test r y) (ground arith) (ground arith) (ground arith)
      | inr n ↦ gives_up (processing_of_test r y) (ground arith) (ground arith) (ground arith)
    ]
  ]
]

moves : (rq : Request) (r : CallJob) → Moves rq r (row_after rq r.job_id r)
unfolding row_after
moves (create now fresh_id body) r = refl
moves (claim now id) r = claim-Moves now id r
moves (complete now id) r = complete-Moves now id r
moves (fail now id body) r = fail-Moves now id body r
moves (reap now) r = reap-Moves now r

-- Every request, carried out alone, keeps each stored row under its id, and makes of it what the
-- relation `Moves` says of that request: a claim takes a waiting job that is due and counts the
-- attempt; a completion ends a job in processing; a failure report with a text has a job in processing
-- retried, after 5 to 300 seconds, if an attempt is left and the report wants it, and fails it
-- otherwise; a sweep takes back a job in processing whose last change is more than 120 seconds old, and
-- fails it if no attempt is left; and the row stays as it is in all other cases.
pub step-Moves :
    (rq : Request) (j : String) (db : Database) (r : CallJob)
    → get job_key j db.call_jobs ≡ some r
    → (r' : CallJob) × (get job_key j (step rq db).call_jobs ≡ some r') × Moves rq r r'
step-Moves rq j db r found =
    let key = key-get job_key j db.call_jobs r found in
    (
      row_after rq r.job_id r,
      get-step rq j db r found ∙ ap (λ k. some (row_after rq k r)) (sym key),
      moves rq r,
    )
