-- ===== src/Jobs/Transitions.antt =====
-- services/api/src/routers/jobs.py: reading, claiming, completing, failing and reaping jobs. An UPDATE
-- is one atomic statement. Where a handler issues several statements, its arguments `meanwhile` and
-- `later` are what other transactions commit between them.
use ai_calling_agent.Prelude.{
  ℕ, ◌+◌, String, Bool, ◌&&◌, Option, none, some, List, [], ◌∷◌, map, leb, ltb, take, select,
  one_of, if◌then◌else◌,
}
use ai_calling_agent.Prelude.Table.{get, update}
use ai_calling_agent.Models.{
  processing, completed, failed, retrying, CallJob, job_key, job_status_text, Clock, seconds,
}
use ai_calling_agent.Jobs.Schema.{
  stale_processing_seconds, is_terminal, is_claimable, is_processing, is_completed, backoff_seconds,
  truncate_error, EventFailRequest, is_valid_fail, job_not_found, not_claimable, cannot_complete,
  cannot_fail, changed_concurrently, unprocessable, Reply, ok, raised,
}

abbrev pub Jobs : Type 0
Jobs = List CallJob

abbrev pub Others : Type 0
Others = Jobs → Jobs

-- ORDER BY available_at, rows of one time in the table's order.
unfoldable pub insert_by_available : CallJob → Jobs → Jobs
insert_by_available job [] = job ∷ []
insert_by_available job (x ∷ xs) =
    if leb job.available_at x.available_at then job ∷ x ∷ xs else x ∷ insert_by_available job xs

unfoldable pub sort_by_available : Jobs → Jobs
unfolding insert_by_available
sort_by_available [] = []
sort_by_available (x ∷ xs) = insert_by_available x (sort_by_available xs)

-- The WHERE clause of the listing.
unfoldable pub is_eligible : List String → ℕ → CallJob → Bool
unfolding one_of job_status_text
is_eligible statuses now job =
    one_of (job_status_text job.status) statuses && leb job.available_at now

-- GET /internal/v1/events; the limit is 1 to 200.
unfoldable pub list_eligible_events : List String → ℕ → ℕ → Jobs → Reply Jobs
unfolding select is_eligible sort_by_available
list_eligible_events statuses limit now jobs =
    if leb 1 limit && leb limit 200
    then ok (take limit (sort_by_available (select (is_eligible statuses now) jobs)))
    else raised unprocessable

-- GET /internal/v1/events/{job_id}
unfoldable pub get_event : String → Jobs → Reply CallJob
get_event id jobs = elim (get job_key id jobs) [ none ↦ raised job_not_found | some job ↦ ok job ]

-- The guard of the claim's UPDATE, and its SET clause.
unfoldable pub can_claim : ℕ → CallJob → Bool
unfolding is_claimable
can_claim now job = is_claimable job.status && leb job.available_at now

unfoldable pub claimed : ℕ → CallJob → CallJob
claimed now job = record job { status = processing; attempts = job.attempts + 1; updated_at = now }

-- The answer where the UPDATE matched no row.
unfoldable pub claim_refusal : Option CallJob → Reply CallJob
claim_refusal none = raised job_not_found
claim_refusal (some job) = raised (not_claimable job.status)

-- POST /internal/v1/events/{job_id}/claim
unfoldable pub claim_event : Others → ℕ → String → Jobs → Reply CallJob × Jobs
unfolding can_claim claimed claim_refusal
claim_event later now id jobs = elim (update job_key id (can_claim now) (claimed now) jobs) [
  | none ↦ (claim_refusal (get job_key id (later jobs)), later jobs)
  | some (job, jobs') ↦ (ok job, jobs')
]

unfoldable pub done_at : ℕ → CallJob → CallJob
done_at now job = record job { status = completed; processed_at = some now; updated_at = now }

-- The second look of `complete_event`, after its UPDATE matched no row.
unfoldable pub raced_complete : Option CallJob → Reply CallJob
unfolding is_completed
raced_complete none = raised changed_concurrently
raced_complete (some job) = if is_completed job.status then ok job else raised changed_concurrently

-- The guarded UPDATE of `complete_event`.
unfoldable pub complete_update : Others → ℕ → String → Jobs → Reply CallJob × Jobs
unfolding is_processing done_at raced_complete
complete_update later now id jobs =
    elim (update job_key id (λ job. is_processing job.status) (done_at now) jobs) [
      | none ↦ (raced_complete (get job_key id (later jobs)), later jobs)
      | some (job, jobs') ↦ (ok job, jobs')
    ]

-- POST /internal/v1/events/{job_id}/complete
unfoldable pub complete_event : Others → Others → ℕ → String → Jobs → Reply CallJob × Jobs
unfolding complete_update
complete_event meanwhile later now id jobs = elim (get job_key id jobs) [
  | none ↦ (raised job_not_found, jobs)
  | some existing ↦
      if is_completed existing.status
      then (ok existing, jobs)
      else if is_processing existing.status
      then complete_update later now id (meanwhile jobs)
      else (raised (cannot_complete existing.status), jobs)
]

-- `body.retry and existing.attempts < existing.max_attempts`
unfoldable pub can_retry : EventFailRequest → CallJob → Bool
can_retry body existing = body.retry && ltb existing.attempts existing.max_attempts

-- The SET clause of `fail_event`; `existing` is the row as the handler read it before.
unfoldable pub failed_row : Clock → EventFailRequest → CallJob → CallJob → CallJob
unfolding can_retry
failed_row now body existing job =
    if can_retry body existing
    then record job {
      status = retrying;
      last_error = some (truncate_error body.error);
      available_at = now.utc + seconds (backoff_seconds existing.attempts);
      updated_at = now.db;
    }
    else record job {
      status = failed;
      last_error = some (truncate_error body.error);
      updated_at = now.db;
      processed_at = some now.db;
    }

-- The guarded UPDATE of `fail_event`.
unfoldable pub fail_update :
    Clock → EventFailRequest → CallJob → String → Jobs → Reply CallJob × Jobs
unfolding is_processing failed_row
fail_update now body existing id jobs =
    elim (update job_key id (λ job. is_processing job.status) (failed_row now body existing) jobs) [
      | none ↦ (raised changed_concurrently, jobs)
      | some (job, jobs') ↦ (ok job, jobs')
    ]

-- POST /internal/v1/events/{job_id}/fail
unfoldable pub fail_event : Others → Clock → String → EventFailRequest → Jobs → Reply CallJob × Jobs
unfolding fail_update is_terminal is_valid_fail
fail_event meanwhile now id body jobs =
    if is_valid_fail body
    then elim (get job_key id jobs) [
      | none ↦ (raised job_not_found, jobs)
      | some existing ↦
          if is_terminal existing.status
          then (ok existing, jobs)
          else if is_processing existing.status
          then fail_update now body existing id (meanwhile jobs)
          else (raised (cannot_fail existing.status), jobs)
    ]
    else (raised unprocessable, jobs)

-- `updated_at < now - 120 s`, written without a subtraction.
unfoldable pub is_stale : ℕ → CallJob → Bool
unfolding is_processing
is_stale utc job =
    is_processing job.status && ltb (job.updated_at + seconds stale_processing_seconds) utc

-- coalesce(last_error, …)
unfoldable pub coalesce_error : Option String → Option String
coalesce_error none = some "reaped: worker did not report completion in time"
coalesce_error (some e) = some e

-- The SET clause of `reap_stale_jobs`.
unfoldable pub reaped_row : ℕ → CallJob → CallJob
unfolding coalesce_error
reaped_row now job =
    let again = ltb job.attempts job.max_attempts in
    record job {
      status = if again then retrying else failed;
      available_at = now;
      processed_at = if again then none else some now;
      last_error = coalesce_error job.last_error;
      updated_at = now;
    }

unfoldable pub reap_row : Clock → CallJob → CallJob
unfolding is_stale reaped_row
reap_row now job = if is_stale now.utc job then reaped_row now.db job else job

-- POST /internal/v1/events/reap: the reaped ids, and the table.
unfoldable pub reap_stale_jobs : Clock → Jobs → List String × Jobs
unfolding reap_row select
reap_stale_jobs now jobs = (map job_key (select (is_stale now.utc) jobs), map (reap_row now) jobs)
