-- ===== src/Jobs/Machine.antt =====
-- The requests of the job API as one state machine over the database, and the machine of a single
-- row that it implements.
use mathlib.Core.List.{map}
use ai_calling_agent.Prelude.{
  ℕ, ◌≡◌, refl, String, ◌&&◌, ◌==◌, none, some, List, [], ◌∷◌, inl, inr, arith, Option-cases,
  eq_iff, if◌then◌else◌,
}
use ai_calling_agent.Prelude.Table.{get, get-update, get-append}
use ai_calling_agent.Models.{CallJob, job_key, Database, Clock}
use ai_calling_agent.Jobs.Schema.{
  is_processing, EventCreateRequest, EventFailRequest, is_valid_fail,
}
use ai_calling_agent.Jobs.Create.{create_event, insert_job, new_job}
use ai_calling_agent.Jobs.Transitions.{
  Jobs, can_claim, claimed, claim_event, done_at, complete_event, complete_update, failed_row,
  fail_event, fail_update, reap_row, reap_stale_jobs,
}

-- A request that changes the table, with the clock that it meets.
pub data Request : Type 0 where
  create : ℕ → String → EventCreateRequest → Request
  claim : ℕ → String → Request
  complete : ℕ → String → Request
  fail : Clock → String → EventFailRequest → Request
  reap : Clock → Request

-- No other transaction commits during the request.
abbrev pub alone {ℓ} : {A : Type ℓ} → A → A
alone x = x

-- One request, carried out alone: the table that it leaves.
unfoldable pub step : Request → Database → Database
step (create now fresh_id body) db = (create_event alone now fresh_id body db none).db
step (claim now id) db = record db { call_jobs = (claim_event alone now id db.call_jobs).1 }
step (complete now id) db = record db {
  call_jobs = (complete_event alone alone now id db.call_jobs).1;
}
step (fail now id body) db = record db { call_jobs = (fail_event alone now id body db.call_jobs).1 }
step (reap now) db = record db { call_jobs = (reap_stale_jobs now db.call_jobs).1 }

unfoldable pub run : List Request → Database → Database
run [] db = db
run (rq ∷ rqs) db = run rqs (step rq db)

-- What a request makes of the row of key `j`.
unfoldable pub row_after : Request → String → CallJob → CallJob
row_after (create now fresh_id body) j r = r
row_after (claim now id) j r = if id == j && can_claim now r then claimed now r else r
row_after (complete now id) j r = if id == j && is_processing r.status then done_at now r else r
row_after (fail now id body) j r =
    if id == j && (is_valid_fail body && is_processing r.status) then failed_row now body r r else r
row_after (reap now) j r = reap_row now r

pub job_id-failed_row :
    (now : Clock) (body : EventFailRequest) (existing job : CallJob)
    → (failed_row now body existing job).job_id ≡ job.job_id
unfolding failed_row
job_id-failed_row now body existing job = ground arith

job_id-reap_row : (now : Clock) (job : CallJob) → (reap_row now job).job_id ≡ job.job_id
unfolding reap_row
job_id-reap_row now job = ground arith

module _ (j : String) (jobs : Jobs) (r : CallJob) (found : get job_key j jobs ≡ some r) where
  pub get-claim_event :
      (now : ℕ) (id : String)
      → get job_key j (claim_event alone now id jobs).1 ≡ some (row_after (claim now id) j r)
  unfolding claim_event row_after claimed
  get-claim_event now id =
      ground (arith, get-update job_key id j (can_claim now) (claimed now) jobs r (λ x. refl) found)

  get-complete_update :
      (now : ℕ) (id : String)
      → get job_key j (complete_update alone now id jobs).1
        ≡ some (if id == j && is_processing r.status then done_at now r else r)
  unfolding complete_update
  get-complete_update now id = ground (
    arith,
    get-update job_key id j (λ x. is_processing x.status) (done_at now) jobs r (λ x. refl) found,
  )

  pub get-complete_event :
      (now : ℕ) (id : String)
      → get job_key j (complete_event alone alone now id jobs).1
        ≡ some (row_after (complete now id) j r)
  unfolding complete_event row_after is_processing
  get-complete_event now id = ground (arith, get-complete_update now id, eq_iff id j)

  pub get-fail_update :
      (now : Clock) (id : String) (body : EventFailRequest) (existing : CallJob)
      → get job_key j (fail_update now body existing id jobs).1
        ≡ some (if id == j && is_processing r.status then failed_row now body existing r else r)
  unfolding fail_update
  get-fail_update now id body existing = ground (
    arith,
    get-update job_key id j (λ x. is_processing x.status) (failed_row now body existing) jobs r
        (job_id-failed_row now body existing) found,
  )

  pub get-fail_event :
      (now : Clock) (id : String) (body : EventFailRequest)
      → get job_key j (fail_event alone now id body jobs).1
        ≡ some (row_after (fail now id body) j r)
  unfolding fail_event row_after is_processing
  get-fail_event now id body = elim (Option-cases (get job_key id jobs)) [
    | inl missing ↦ ground (arith, eq_iff id j)
    | inr (existing, hit) ↦ ground (arith, get-fail_update now id body existing, eq_iff id j)
  ]

pub get-map_reap :
    (j : String) (now : Clock) (jobs : Jobs) (r : CallJob)
    → get job_key j jobs ≡ some r
    → get job_key j (map (reap_row now) jobs) ≡ some (reap_row now r)
unfolding get
get-map_reap j now [] r found = ground arith
get-map_reap j now (x ∷ jobs) r found =
    ground (arith, job_id-reap_row now x, get-map_reap j now jobs r)

get-create_event :
    (now : ℕ) (fresh_id : String) (body : EventCreateRequest) (j : String) (db : Database)
    (r : CallJob)
    → get job_key j db.call_jobs ≡ some r
    → get job_key j (create_event alone now fresh_id body db none).db.call_jobs ≡ some r
unfolding create_event insert_job
get-create_event now fresh_id body j db r found =
    ground (arith, get-append job_key j db.call_jobs (new_job now fresh_id body ∷ []))

-- Every request, carried out alone, makes of each stored row what the machine of that row says: a claim
-- starts a claimable row that is due, a completion ends a row in processing, a failure report retries
-- or fails one, a sweep recovers a stale one, and all else leaves the row as it is.
pub get-step :
    (rq : Request) (j : String) (db : Database) (r : CallJob)
    → get job_key j db.call_jobs ≡ some r
    → get job_key j (step rq db).call_jobs ≡ some (row_after rq j r)
unfolding step row_after reap_stale_jobs
get-step (create now fresh_id body) j db r found = get-create_event now fresh_id body j db r found
get-step (claim now id) j db r found = get-claim_event j db.call_jobs r found now id
get-step (complete now id) j db r found = get-complete_event j db.call_jobs r found now id
get-step (fail now id body) j db r found = get-fail_event j db.call_jobs r found now id body
get-step (reap now) j db r found = get-map_reap j now db.call_jobs r found
