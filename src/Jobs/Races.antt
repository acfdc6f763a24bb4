-- ===== src/Jobs/Races.antt =====
-- What repeated and concurrent reports do (`complete_event` and `fail_event` of
-- services/api/src/routers/jobs.py).
use ai_calling_agent.Prelude.{
  ℕ, ◌≤◌, ◌<◌, ◌≡◌, String, true, some, List, inl, inr, ◌∙◌, arith, Option-cases,
}
use ai_calling_agent.Prelude.Table.{
  get, update_of_guard, update_of_missing, key-get, get-put_self, put,
}
use ai_calling_agent.Models.{retrying, completed, CallJob, job_key, Clock, Database}
use ai_calling_agent.Jobs.Schema.{
  is_terminal, is_processing, is_completed, EventFailRequest, is_valid_fail, ok,
}
use ai_calling_agent.Jobs.Transitions.{
  Jobs, Others, done_at, complete_event, complete_update, raced_complete, failed_row, fail_event,
  fail_update,
}
use ai_calling_agent.Jobs.Valid.{IsValid}
use ai_calling_agent.Jobs.Machine.{Request, alone, run, job_id-failed_row}
use ai_calling_agent.Jobs.Lifecycle.{run_of_terminal}

complete_update_of_found :
    (later : Others) (now : ℕ) (id : String) (jobs : Jobs) (r : CallJob)
    → get job_key id jobs ≡ some r
    → is_processing r.status ≡ true
    → complete_update later now id jobs ≡ (ok (done_at now r), put job_key id (done_at now r) jobs)
unfolding complete_update
complete_update_of_found later now id jobs r found busy =
    ground
      (arith, update_of_guard job_key id (λ x. is_processing x.status) (done_at now) jobs r found)

complete_update-ok :
    (later : Others) (now : ℕ) (id : String) (jobs jobs' : Jobs) (job : CallJob)
    → complete_update later now id jobs ≡ (ok job, jobs')
    → job.status ≡ completed
unfolding complete_update raced_complete is_completed done_at
complete_update-ok later now id jobs jobs' job e = elim (Option-cases (get job_key id jobs)) [
  | inl missing ↦
      ground (
        arith,
        update_of_missing job_key id (λ x. is_processing x.status) (done_at now) jobs missing,
      )
  | inr (r, found) ↦
      ground
        (arith, update_of_guard job_key id (λ x. is_processing x.status) (done_at now) jobs r found)
]

fail_update_of_found :
    (now : Clock) (body : EventFailRequest) (existing : CallJob) (id : String) (jobs : Jobs)
    (r : CallJob)
    → get job_key id jobs ≡ some r
    → is_processing r.status ≡ true
    → fail_update now body existing id jobs
      ≡ (ok (failed_row now body existing r), put job_key id (failed_row now body existing r) jobs)
unfolding fail_update
fail_update_of_found now body existing id jobs r found busy = ground (
  arith,
  update_of_guard job_key id (λ x. is_processing x.status) (failed_row now body existing) jobs r
      found,
)

get-put_done :
    (now : ℕ) (id : String) (jobs : Jobs) (r : CallJob)
    → get job_key id jobs ≡ some r
    → get job_key id (put job_key id (done_at now r) jobs) ≡ some (done_at now r)
unfolding done_at
get-put_done now id jobs r found =
    get-put_self job_key id (done_at now r) jobs r (key-get job_key id jobs r found) found

get-put_failed :
    (now : Clock) (body : EventFailRequest) (existing : CallJob) (id : String) (jobs : Jobs)
    (r : CallJob)
    → get job_key id jobs ≡ some r
    → get job_key id (put job_key id (failed_row now body existing r) jobs)
      ≡ some (failed_row now body existing r)
get-put_failed now body existing id jobs r found =
    get-put_self job_key id (failed_row now body existing r) jobs r
      (job_id-failed_row now body existing r ∙ key-get job_key id jobs r found) found

-- A completion that is answered with a job is answered with a completed one, whatever other
-- transactions commit around its statements.
pub complete_event-ok :
    (meanwhile later : Others) (now : ℕ) (id : String) (jobs jobs' : Jobs) (job : CallJob)
    → complete_event meanwhile later now id jobs ≡ (ok job, jobs')
    → job.status ≡ completed
unfolding complete_event raced_complete is_completed done_at
complete_event-ok meanwhile later now id jobs jobs' job e =
    ground (arith, complete_update-ok later now id (meanwhile jobs) jobs' job)

complete_update-left :
    (later : Others) (now : ℕ) (id : String) (jobs jobs' : Jobs) (job : CallJob)
    → complete_update later now id jobs ≡ (ok job, jobs')
    → get job_key id jobs' ≡ some job
unfolding complete_update raced_complete
complete_update-left later now id jobs jobs' job e = elim (Option-cases (get job_key id jobs)) [
  | inl missing ↦
      ground (
        arith,
        update_of_missing job_key id (λ x. is_processing x.status) (done_at now) jobs missing,
      )
  | inr (r, found) ↦ ground (
    arith,
    update_of_guard job_key id (λ x. is_processing x.status) (done_at now) jobs r found,
    get-put_done now id jobs r found,
  )
]

-- What a completion answers is the row that is left.
complete_event-left :
    (meanwhile later : Others) (now : ℕ) (id : String) (jobs jobs' : Jobs) (job : CallJob)
    → complete_event meanwhile later now id jobs ≡ (ok job, jobs')
    → get job_key id jobs' ≡ some job
unfolding complete_event
complete_event-left meanwhile later now id jobs jobs' job e =
    ground (arith, complete_update-left later now id (meanwhile jobs) jobs' job)

complete_event_of_completed :
    (now : ℕ) (id : String) (jobs : Jobs) (job : CallJob)
    → get job_key id jobs ≡ some job
    → job.status ≡ completed
    → complete_event alone alone now id jobs ≡ (ok job, jobs)
unfolding complete_event is_completed
complete_event_of_completed now id jobs job found done = ground arith

terminal_of_completed : (job : CallJob) → job.status ≡ completed → is_terminal job.status ≡ true
unfolding is_terminal
terminal_of_completed job done = ground arith

-- A completion that was answered with a job, whatever other transactions commit between its statements,
-- can be repeated: after any sequence of requests, each carried out alone, the same completion, carried out
-- alone, is answered with the same job, which is completed, and changes nothing.
pub complete_event-complete_event :
    (meanwhile later : Others) (now now' : ℕ) (id : String) (jobs : Jobs) (job : CallJob)
    (db : Database) (rqs : List Request)
    → complete_event meanwhile later now id jobs ≡ (ok job, db.call_jobs)
    → (job.status ≡ completed)
      × (complete_event alone alone now' id (run rqs db).call_jobs
          ≡ (ok job, (run rqs db).call_jobs))
complete_event-complete_event meanwhile later now now' id jobs job db rqs e =
    let done = complete_event-ok meanwhile later now id jobs db.call_jobs job e in
    let left = complete_event-left meanwhile later now id jobs db.call_jobs job e in
    (
      done,
      complete_event_of_completed now' id (run rqs db).call_jobs job
          (run_of_terminal rqs id db job left (terminal_of_completed job done)) done,
    )

-- Repeating a failure report changes nothing.
pub fail_event-fail_event :
    (now now' : Clock) (id : String) (body body' : EventFailRequest) (jobs : Jobs)
    → let left = (fail_event alone now id body jobs).1 in
      is_valid_fail body ≡ true → (fail_event alone now' id body' left).1 ≡ left
unfolding fail_event is_terminal is_processing failed_row
fail_event-fail_event now now' id body body' jobs valid =
    elim (Option-cases (get job_key id jobs)) [
      | inl missing ↦ ground arith
      | inr (r, found) ↦ ground (
        arith,
        fail_update_of_found now body r id jobs r found,
        get-put_failed now body r id jobs r found,
      )
    ]

-- A failure report that is judged by a row read with an attempt left, and that reaches the row after
-- another transaction reaped it and a worker claimed it for its last attempt, sets it to `retrying`
-- with no attempt left: the row is not valid.
pub fail_event_of_reclaimed :
    (meanwhile : Others) (now : Clock) (id : String) (body : EventFailRequest) (jobs : Jobs)
    (existing r : CallJob)
    → get job_key id jobs ≡ some existing
    → get job_key id (meanwhile jobs) ≡ some r
    → is_valid_fail body ≡ true
    → body.retry ≡ true
    → is_processing existing.status ≡ true
    → is_processing r.status ≡ true
    → existing.attempts < existing.max_attempts
    → r.max_attempts ≤ r.attempts
    → (job : CallJob) × (get job_key id (fail_event meanwhile now id body jobs).1 ≡ some job)
      × (job.status ≡ retrying)
      × (job.attempts ≡ r.attempts)
      × (¬ IsValid job)
unfolding fail_event is_terminal is_processing failed_row
fail_event_of_reclaimed meanwhile now id body jobs existing r read there valid again p q left
      spent =
    (
      failed_row now body existing r,
      ground (
        arith,
        fail_update_of_found now body existing id (meanwhile jobs) r there q,
        get-put_failed now body existing id (meanwhile jobs) r there,
      ),
      ground arith,
      ground arith,
      λ v. ground (arith, v.retry_left),
    )
