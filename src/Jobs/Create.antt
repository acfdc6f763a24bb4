-- ===== src/Jobs/Create.antt =====
-- services/api/src/routers/jobs.py: `create_event`, and the INSERT with the constraints of
-- services/api/src/models.py that can refuse it.
use Prim.Native.String.{count}
use ai_calling_agent.Prelude.{
  ℕ, String, Bool, true, false, not, ◌&&◌, ◌||◌, ◌==◌, Option, none, some, List, [], ◌∷◌, ◌++◌, leb,
  is_some, if◌then◌else◌,
}
use ai_calling_agent.Prelude.Table.{get}
use ai_calling_agent.Models.{CallJob, queued, Database, job_key, Call, call_key}
use ai_calling_agent.Jobs.Schema.{
  EventCreateRequest, is_valid_create, JobsError, unprocessable, integrity_error, data_error, Reply,
  ok, raised, Queue, notify_worker,
}

-- A text column `String(n)` holds at most `n` characters.
unfoldable pub fits : ℕ → Option String → Bool
fits n none = true
fits n (some s) = leb (count s) n

-- The row of (provider_call_id, event_type) has this key.
unfoldable pub has_event : String → String → CallJob → Bool
has_event pid event job = elim job.provider_call_id [
  | none ↦ false
  | some p ↦ p == pid && job.event_type == event
]

-- SELECT … WHERE provider_call_id = pid AND event_type = event
unfoldable pub find_event : String → String → List CallJob → Option CallJob
find_event pid event [] = none
find_event pid event (job ∷ jobs) =
    if has_event pid event job then some job else find_event pid event jobs

-- The partial unique index `uq_call_jobs_provider_event` refuses the key.
unfoldable pub event_taken : Option String → String → List CallJob → Bool
event_taken none event jobs = false
event_taken (some pid) event jobs = is_some (find_event pid event jobs)

-- The foreign key `call_jobs.call_id → calls.call_id` refuses the value.
unfoldable pub dangling_call : Option String → List Call → Bool
dangling_call none calls = false
dangling_call (some c) calls = not (is_some (get call_key c calls))

unfoldable pub attempts_or_default : Option ℕ → ℕ
attempts_or_default none = 5
attempts_or_default (some n) = n

-- `CallJob(…)` of the handler, with the column defaults that the INSERT fills in at `now`.
unfoldable pub new_job : ℕ → String → EventCreateRequest → CallJob
unfolding attempts_or_default
new_job now fresh_id body = record {
  job_id = fresh_id;
  tenant_id = body.tenant_id;
  call_id = body.call_id;
  provider_call_id = body.provider_call_id;
  event_type = body.event_type;
  payload = body.payload;
  status = queued;
  attempts = 0;
  max_attempts = attempts_or_default body.max_attempts;
  last_error = none;
  created_at = now;
  updated_at = now;
  available_at = now;
  processed_at = none;
}

-- The widths of the text columns.
unfoldable pub job_fits : CallJob → Bool
unfolding fits
job_fits job =
    fits 36 (some job.job_id)
    && fits 255 job.tenant_id
    && fits 36 job.call_id
    && fits 255 job.provider_call_id
    && fits 50 (some job.event_type)

-- A constraint of the table refuses the row.
unfoldable pub violates : CallJob → Database → Bool
unfolding event_taken dangling_call
violates job db =
    is_some (get job_key job.job_id db.call_jobs)
    || event_taken job.provider_call_id job.event_type db.call_jobs
    || dangling_call job.call_id db.calls

pub data InsertResult : Type 0 where
  inserted : Database → InsertResult
  refused : JobsError → InsertResult

-- db.add(job); await db.commit()
unfoldable pub insert_job : CallJob → Database → InsertResult
unfolding job_fits violates
insert_job job db =
    if not (job_fits job)
    then refused data_error
    else if violates job db
    then refused integrity_error
    else inserted (record db { call_jobs = db.call_jobs ++ job ∷ [] })

pub record Created : Type 0 where
  pub duplicate : Bool
  pub job : CallJob

-- The handler's answer, with the database and the queue that it leaves.
pub record CreateResult : Type 0 where
  pub reply : Reply Created
  pub db : Database
  pub queue : Option Queue

-- After the rollback: the row that holds the key is the answer, as a duplicate.
unfoldable pub existing_event : Option String → String → List CallJob → Reply Created
existing_event none event jobs = raised integrity_error
existing_event (some pid) event jobs = elim (find_event pid event jobs) [
  | none ↦ raised integrity_error
  | some job ↦ ok (record { duplicate = true; job = job })
]

-- `later` is what other transactions commit between the rollback and the SELECT after it.
unfoldable pub after_insert :
    (Database → Database)
    → EventCreateRequest
    → CallJob
    → Database
    → Option Queue
    → InsertResult
    → CreateResult
after_insert later body job db q (inserted db') = record {
  reply = ok (record { duplicate = false; job = job });
  db = db';
  queue = notify_worker job.job_id q;
}
after_insert later body job db q (refused data_error) = record {
  reply = raised data_error;
  db = db;
  queue = q;
}
after_insert later body job db q (refused e) = record {
  reply = existing_event body.provider_call_id body.event_type (later db).call_jobs;
  db = later db;
  queue = q;
}

-- POST /internal/v1/events. `fresh_id` is the new row's `uuid4`, `now` the database's clock.
unfoldable pub create_event :
    (Database → Database) → ℕ → String → EventCreateRequest → Database → Option Queue → CreateResult
unfolding after_insert
create_event later now fresh_id body db q =
    let job = new_job now fresh_id body in
    if is_valid_create body
    then after_insert later body job db q (insert_job job db)
    else record { reply = raised unprocessable; db = db; queue = q }
