-- ===== src/Worker/Clients.antt =====
-- services/worker/src/jobs_client.py, with the handlers of the job API behind it.
use ai_calling_agent.Prelude.{ℕ, String, ◌||◌, Option, none, some, List, eqb, if◌then◌else◌}
use ai_calling_agent.Models.{CallJob, Clock, Database}
use ai_calling_agent.Jobs.Schema.{Reply, ok, raised, status_code, EventFailRequest}
use ai_calling_agent.Jobs.Transitions.{
  Jobs, claim_event, complete_event, fail_event, reap_stale_jobs, list_eligible_events,
}
use ai_calling_agent.Jobs.Machine.{alone}
use ai_calling_agent.Calls.Token.{Verdict}
use ai_calling_agent.Wire.{Link, exchange}

-- response.raise_for_status()
unfoldable pub raise_for_status {ℓ} : {A : Type ℓ} → Reply A → Option A
raise_for_status (ok a) = some a
raise_for_status (raised e) = none

-- The answer of a claim: 404 and 409 mean that the job is not to be had, any other error raises.
unfoldable pub claim_answer : Reply CallJob → Option (Option CallJob)
claim_answer (ok job) = some (some job)
claim_answer (raised e) =
    if eqb (status_code e) 404 || eqb (status_code e) 409 then some none else none

-- The database with the jobs that a handler left.
unfoldable pub with_jobs {ℓ} : {A : Type ℓ} → Database → A × Jobs → A × Database
with_jobs db r = (r.0, record db { call_jobs = r.1 })

unfoldable pub serve_claim : ℕ → String → Database → Option (Option CallJob) × Database
unfolding with_jobs claim_answer
serve_claim now id db =
    let r = with_jobs db (claim_event alone now id db.call_jobs) in (claim_answer r.0, r.1)

-- JobsClient.claim: the outer `none` is a JobsApiError.
unfoldable pub claim : Link → Verdict → ℕ → String → Database → Option (Option CallJob) × Database
unfolding serve_claim
claim link v now id db = exchange link v (serve_claim now id) db

unfoldable pub serve_complete : ℕ → String → Database → Option CallJob × Database
unfolding with_jobs raise_for_status
serve_complete now id db =
    let r = with_jobs db (complete_event alone alone now id db.call_jobs) in
    (raise_for_status r.0, r.1)

-- JobsClient.complete
unfoldable pub complete : Link → Verdict → ℕ → String → Database → Option CallJob × Database
unfolding serve_complete
complete link v now id db = exchange link v (serve_complete now id) db

unfoldable pub serve_fail : Clock → String → EventFailRequest → Database → Option CallJob × Database
unfolding with_jobs raise_for_status
serve_fail now id body db =
    let r = with_jobs db (fail_event alone now id body db.call_jobs) in (raise_for_status r.0, r.1)

-- JobsClient.fail
unfoldable pub fail :
    Link → Verdict → Clock → String → EventFailRequest → Database → Option CallJob × Database
unfolding serve_fail
fail link v now id body db = exchange link v (serve_fail now id body) db

unfoldable pub serve_reap : Clock → Database → Option (List String) × Database
unfolding with_jobs
serve_reap now db = let r = with_jobs db (reap_stale_jobs now db.call_jobs) in (some r.0, r.1)

-- JobsClient.reap
unfoldable pub reap : Link → Verdict → Clock → Database → Option (List String) × Database
unfolding serve_reap
reap link v now db = exchange link v (serve_reap now) db

unfoldable pub serve_list : List String → ℕ → ℕ → Database → Option Jobs × Database
unfolding raise_for_status
serve_list statuses limit now db =
    (raise_for_status (list_eligible_events statuses limit now db.call_jobs), db)

-- JobsClient.list_eligible. It reads only.
unfoldable pub list_eligible : Link → Verdict → List String → ℕ → ℕ → Database → Option Jobs
unfolding serve_list
list_eligible link v statuses limit now db = (exchange link v (serve_list statuses limit now) db).0
