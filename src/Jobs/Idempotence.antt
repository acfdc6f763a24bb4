-- ===== src/Jobs/Idempotence.antt =====
-- A recorded event is never recorded again (`create_event` of services/api/src/routers/jobs.py).
use ai_calling_agent.Prelude.{
  ℕ, ◌≡◌, refl, String, true, false, Option, none, some, List, [], ◌∷◌, ◌⊎◌, inl, inr, ◌∙◌, arith,
  Option-cases, eq_refl, is_some,
}
use ai_calling_agent.Prelude.Table.{get}
use ai_calling_agent.Models.{CallJob, job_key, Database, Clock}
use ai_calling_agent.Jobs.Schema.{
  EventCreateRequest, EventFailRequest, is_valid_create, is_processing, ok, Queue, JobsError,
}
use ai_calling_agent.Jobs.Create.{
  has_event, find_event, new_job, job_fits, event_taken, Created, create_event, insert_job,
  existing_event, InsertResult, inserted, refused,
}
use ai_calling_agent.Jobs.Transitions.{
  Jobs, can_claim, claimed, claim_event, done_at, complete_event, complete_update, failed_row,
  fail_event, fail_update, reap_stale_jobs,
}
use ai_calling_agent.Jobs.Machine.{Request, create, claim, complete, fail, reap, alone, step, run}
use ai_calling_agent.Jobs.Events.{
  event_id, SameEvent, event_id-after, event_id-map, event_id-append, event_id-append_new,
  insert_job-inserted, insert_job_of_taken,
}

pub failed_row-SameEvent :
    (now : Clock) (body : EventFailRequest) (existing x : CallJob)
    → SameEvent (failed_row now body existing x) x
unfolding failed_row
failed_row-SameEvent now body existing x = ground arith

module _ (pid event : String) where
  event_id-claim_event :
      (now : ℕ) (id : String) (jobs : Jobs)
      → event_id pid event (claim_event alone now id jobs).1 ≡ event_id pid event jobs
  unfolding claim_event claimed
  event_id-claim_event now id jobs = ground (
    arith,
    event_id-after pid event id (can_claim now) (claimed now) jobs (λ x. (refl, refl, refl)),
  )

  event_id-complete_event :
      (now : ℕ) (id : String) (jobs : Jobs)
      → event_id pid event (complete_event alone alone now id jobs).1 ≡ event_id pid event jobs
  unfolding complete_event complete_update done_at
  event_id-complete_event now id jobs = ground (
    arith,
    event_id-after pid event id (λ x. is_processing x.status) (done_at now) jobs
        (λ x. (refl, refl, refl)),
  )

  event_id-fail_update :
      (now : Clock) (body : EventFailRequest) (existing : CallJob) (id : String) (jobs : Jobs)
      → event_id pid event (fail_update now body existing id jobs).1 ≡ event_id pid event jobs
  unfolding fail_update
  event_id-fail_update now body existing id jobs = ground (
    arith,
    event_id-after pid event id (λ x. is_processing x.status) (failed_row now body existing) jobs
        (failed_row-SameEvent now body existing),
  )

  event_id-fail_event :
      (now : Clock) (body : EventFailRequest) (id : String) (jobs : Jobs)
      → event_id pid event (fail_event alone now id body jobs).1 ≡ event_id pid event jobs
  unfolding fail_event
  event_id-fail_event now body id jobs = elim (Option-cases (get job_key id jobs)) [
    | inl missing ↦ ground arith
    | inr (r, found) ↦ ground (arith, event_id-fail_update now body r id jobs)
  ]

  event_id-create_event :
      (now : ℕ) (fresh_id : String) (body : EventCreateRequest) (db : Database) (q : Option Queue)
      (id : String)
      → event_id pid event db.call_jobs ≡ some id
      → event_id pid event (create_event alone now fresh_id body db q).db.call_jobs ≡ some id
  unfolding create_event insert_job
  event_id-create_event now fresh_id body db q id e =
      ground (arith, event_id-append pid event db.call_jobs (new_job now fresh_id body) id)

  event_id-step :
      (rq : Request) (db : Database) (id : String)
      → event_id pid event db.call_jobs ≡ some id
      → event_id pid event (step rq db).call_jobs ≡ some id
  unfolding step reap_stale_jobs
  event_id-step (create now fresh_id body) db id e =
      event_id-create_event now fresh_id body db none id e
  event_id-step (claim now k) db id e = event_id-claim_event now k db.call_jobs ∙ e
  event_id-step (complete now k) db id e = event_id-complete_event now k db.call_jobs ∙ e
  event_id-step (fail now k body) db id e = event_id-fail_event now body k db.call_jobs ∙ e
  event_id-step (reap now) db id e = event_id-map pid event now db.call_jobs ∙ e

  event_id-run :
      (rqs : List Request) (db : Database) (id : String)
      → event_id pid event db.call_jobs ≡ some id
      → event_id pid event (run rqs db).call_jobs ≡ some id
  unfolding run
  event_id-run [] db id e = e
  event_id-run (rq ∷ rqs) db id e = event_id-run rqs (step rq db) id (event_id-step rq db id e)

pub insert_cases :
    (job : CallJob) (db : Database)
    → ((db' : Database) × (insert_job job db ≡ inserted db'))
      ⊎ ((e : JobsError) × (insert_job job db ≡ refused e))
insert_cases job db = go (insert_job job db) refl
  where
    go :
        (x : InsertResult)
        → insert_job job db ≡ x
        → ((db' : Database) × (insert_job job db ≡ inserted db'))
          ⊎ ((e : JobsError) × (insert_job job db ≡ refused e))
    go (inserted db') e = inl (db', e)
    go (refused x) e = inr (x, e)

module _ (now : ℕ) (fresh_id : String) (body : EventCreateRequest) (db : Database)
    (q : Option Queue) (pid : String) (keyed : body.provider_call_id ≡ some pid) where
  has_event-new_job : has_event pid body.event_type (new_job now fresh_id body) ≡ true
  unfolding has_event new_job
  has_event-new_job = ground (arith, keyed, eq_refl pid, eq_refl body.event_type)

  event_taken-new_job :
      event_taken
        (new_job now fresh_id body).provider_call_id
        (new_job now fresh_id body).event_type
        db.call_jobs
      ≡ is_some (find_event pid body.event_type db.call_jobs)
  unfolding event_taken new_job
  event_taken-new_job = rw keyed

  find_event_of_free :
      event_taken
          (new_job now fresh_id body).provider_call_id
          (new_job now fresh_id body).event_type
          db.call_jobs
        ≡ false
      → find_event pid body.event_type db.call_jobs ≡ none
  find_event_of_free free = ground (arith, event_taken-new_job)

  -- Whatever the answer, the key then holds the id of the job in the answer.
  pub event_id-created :
      (c : Created)
      → (create_event alone now fresh_id body db q).reply ≡ ok c
      → event_id pid body.event_type (create_event alone now fresh_id body db q).db.call_jobs
        ≡ some c.job.job_id
  unfolding create_event existing_event event_id
  event_id-created c e = elim (insert_cases (new_job now fresh_id body) db) [
    | inl (db', done) ↦
        let (left, free) = insert_job-inserted (new_job now fresh_id body) db db' done in
        ground (
          arith,
          event_id-append_new pid body.event_type db.call_jobs (new_job now fresh_id body)
              (find_event_of_free free) has_event-new_job,
        )
    | inr (err, refusal) ↦ ground arith
  ]

  pub create_event_of_recorded :
      (id : String)
      → event_id pid body.event_type db.call_jobs ≡ some id
      → is_valid_create body ≡ true
      → job_fits (new_job now fresh_id body) ≡ true
      → (job : CallJob) × (job.job_id ≡ id)
        × (create_event alone now fresh_id body db q
            ≡ record { reply = ok (record { duplicate = true; job = job }); db = db; queue = q })
  unfolding create_event existing_event event_id
  create_event_of_recorded id e valid wide =
      elim (Option-cases (find_event pid body.event_type db.call_jobs)) [
        | inl none_found ↦ ground arith
        | inr (job, hit) ↦ (
          job,
          ground arith,
          ground (
            arith,
            insert_job_of_taken (new_job now fresh_id body) db wide
                (event_taken-new_job ∙ (rw hit)),
          ),
        )
      ]

-- Once an event is recorded, or found recorded, every later record request with its key, whatever its
-- other fields and whatever requests came between, is answered as a duplicate with the same job, and
-- writes neither a row nor a wake-up. Each request is carried out alone; the later one must be valid
-- and fit the columns.
pub create_event-create_event :
    (now now' : ℕ) (fresh_id fresh_id' : String) (body body' : EventCreateRequest) (db : Database)
    (q q' : Option Queue) (rqs : List Request) (pid : String) (c : Created)
    → body.provider_call_id ≡ some pid
    → body'.provider_call_id ≡ some pid
    → body'.event_type ≡ body.event_type
    → is_valid_create body' ≡ true
    → job_fits (new_job now' fresh_id' body') ≡ true
    → (create_event alone now fresh_id body db q).reply ≡ ok c
    → let db' = run rqs (create_event alone now fresh_id body db q).db in
      (job : CallJob) × (job.job_id ≡ c.job.job_id)
      × (create_event alone now' fresh_id' body' db' q'
          ≡ record { reply = ok (record { duplicate = true; job = job }); db = db'; queue = q' })
create_event-create_event now now' fresh_id fresh_id' body body' db q q' rqs pid c k k' same valid
      wide e =
    create_event_of_recorded now' fresh_id' body'
      (run rqs (create_event alone now fresh_id body db q).db) q' pid k' c.job.job_id
      (rw same (
        event_id-run pid body.event_type rqs _ c.job.job_id
          (event_id-created now fresh_id body db q pid k c e)))
      valid wide
