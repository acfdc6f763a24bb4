-- ===== src/Jobs/Lifecycle.antt =====
-- The life of a job under any sequence of requests to the API of services/api/src/routers/jobs.py.
use ai_calling_agent.Prelude.{
  ℕ, ◌≡◌, String, true, none, some, List, [], ◌∷◌, ap, ◌∙◌, arith, All-append,
}
use ai_calling_agent.Prelude.Table.{get}
use ai_calling_agent.Models.{CallJob, job_key, Database}
use ai_calling_agent.Jobs.Schema.{EventCreateRequest, is_terminal, is_processing}
use ai_calling_agent.Jobs.Create.{create_event, insert_job, new_job}
use ai_calling_agent.Jobs.Transitions.{reap_row, can_claim}
use ai_calling_agent.Jobs.Valid.{
  IsValid, IsValidTable, new_job-IsValid, claim_event-IsValid, complete_event-IsValid,
  fail_event-IsValid, reap_stale_jobs-IsValid,
}
use ai_calling_agent.Jobs.Machine.{
  Request, create, claim, complete, fail, reap, alone, step, run, row_after, get-step,
}

create_event-IsValid :
    (now : ℕ) (fresh_id : String) (body : EventCreateRequest) (db : Database)
    → IsValidTable db.call_jobs
    → IsValidTable (create_event alone now fresh_id body db none).db.call_jobs
unfolding create_event insert_job
create_event-IsValid now fresh_id body db v = ground (
  arith,
  new_job-IsValid now fresh_id body,
  All-append IsValid db.call_jobs (new_job now fresh_id body ∷ []) v,
)

-- Every request keeps every row valid.
step-IsValid :
    (rq : Request) (db : Database) → IsValidTable db.call_jobs → IsValidTable (step rq db).call_jobs
unfolding step
step-IsValid (create now fresh_id body) db v = create_event-IsValid now fresh_id body db v
step-IsValid (claim now id) db v = claim_event-IsValid db.call_jobs v alone now id v
step-IsValid (complete now id) db v = complete_event-IsValid alone alone now id db.call_jobs v v v
step-IsValid (fail now id body) db v =
    fail_event-IsValid alone now id body db.call_jobs v v λ e r p q. ground arith
step-IsValid (reap now) db v = reap_stale_jobs-IsValid db.call_jobs v now

-- From a valid table, any sequence of requests, each carried out alone, leaves a valid table: a job has
-- been attempted at most as often as its bound, a job waiting for a retry has an attempt left, and exactly
-- the completed and failed jobs have a processing time.
pub run-IsValid :
    (rqs : List Request) (db : Database)
    → IsValidTable db.call_jobs
    → IsValidTable (run rqs db).call_jobs
unfolding run
run-IsValid [] db v = v
run-IsValid (rq ∷ rqs) db v = run-IsValid rqs (step rq db) (step-IsValid rq db v)

row_after_of_terminal :
    (rq : Request) (j : String) (r : CallJob) → is_terminal r.status ≡ true → row_after rq j r ≡ r
unfolding row_after is_terminal is_processing can_claim reap_row
row_after_of_terminal rq j r t = ground arith

-- A completed or failed job is never changed again, by any sequence of requests that are each carried
-- out alone.
pub run_of_terminal :
    (rqs : List Request) (j : String) (db : Database) (r : CallJob)
    → get job_key j db.call_jobs ≡ some r
    → is_terminal r.status ≡ true
    → get job_key j (run rqs db).call_jobs ≡ some r
unfolding run
run_of_terminal [] j db r found t = found
run_of_terminal (rq ∷ rqs) j db r found t =
    run_of_terminal rqs j (step rq db) r
      (get-step rq j db r found ∙ ap some (row_after_of_terminal rq j r t)) t
