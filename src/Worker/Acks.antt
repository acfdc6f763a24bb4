-- ===== src/Worker/Acks.antt =====
-- No premature completion: services/worker/src/main.py completes a job only after the integration
-- service has processed it.
use ai_calling_agent.Prelude.{
  ℕ, ◌≡◌, refl, String, true, false, Option, none, some, List, [], ◌∷◌, ◌++◌, arith, ap, sym, ◌∙◌,
}
use ai_calling_agent.Prelude.Table.{get, key-get}
use ai_calling_agent.Models.{CallJob, job_key, Clock, Database}
use ai_calling_agent.Jobs.Schema.{EventFailRequest, Reply, ok, raised, is_completed}
use ai_calling_agent.Jobs.Transitions.{claimed, failed_row, claim_event}
use ai_calling_agent.Jobs.Machine as M
use ai_calling_agent.Jobs.Machine.{Request, step, row_after, get-step, alone}
use ai_calling_agent.Jobs.Claims.{claim_event-eq-ok}
use ai_calling_agent.Calls.Token.{Verdict, admitted, unauthorized, type_error}
use ai_calling_agent.Wire.{
  Link, delivered, unreachable, response_lost, exchange, guarded, exchange-some,
}
use ai_calling_agent.Worker.Integration.{
  ProcessEventRequest, IntegrationError, process, process_event, raise_for_code, process_remote,
}
use ai_calling_agent.Worker.Clients.{serve_claim, claim, claim_answer, with_jobs, serve_fail, fail}
use ai_calling_agent.Worker.Loop.{
  Env, World, request_of, report, report_success, report_failure, drive, after_claim, process_one,
}

-- The row of the job is there and not completed.
abbrev pub IsOpen : String → Database → Type 0
IsOpen id db =
    (r : CallJob) × (get job_key id db.call_jobs ≡ some r) × (is_completed r.status ≡ false)

pub exchange-IsOpen :
    {A : Type 0} (id : String) (link : Link) (v : Verdict)
    (handler : Database → Option A × Database) (db : Database)
    → (IsOpen id db → IsOpen id (handler db).1)
    → IsOpen id db
    → IsOpen id (exchange link v handler db).1
unfolding exchange guarded
exchange-IsOpen id delivered admitted handler db h o = h o
exchange-IsOpen id delivered unauthorized handler db h o = o
exchange-IsOpen id delivered type_error handler db h o = o
exchange-IsOpen id unreachable v handler db h o = o
exchange-IsOpen id response_lost admitted handler db h o = h o
exchange-IsOpen id response_lost unauthorized handler db h o = o
exchange-IsOpen id response_lost type_error handler db h o = o

pub claim-IsOpen :
    (link : Link) (v : Verdict) (now : ℕ) (k id : String) (db : Database)
    → IsOpen id db
    → IsOpen id (claim link v now k db).1
unfolding claim serve_claim with_jobs step row_after claimed is_completed
claim-IsOpen link v now k id db o =
    exchange-IsOpen id link v (serve_claim now k) db
      (λ o.
        let (r, found, not_done) = o in
        (row_after (M.claim now k) id r, get-step (M.claim now k) id db r found, ground arith))
      o

fail-IsOpen :
    (link : Link) (v : Verdict) (now : Clock) (k id : String) (body : EventFailRequest)
    (db : Database)
    → IsOpen id db
    → IsOpen id (fail link v now k body db).1
unfolding fail serve_fail with_jobs step row_after failed_row is_completed
fail-IsOpen link v now k id body db o =
    exchange-IsOpen id link v (serve_fail now k body) db
      (λ o.
        let (r, found, not_done) = o in
        (
          row_after (M.fail now k body) id r,
          get-step (M.fail now k body) id db r found,
          ground arith,
        ))
      o

-- A success of the integration call means that the service processed the job.
pub process_remote-done :
    (link : Link) (v : Verdict) (body : ProcessEventRequest) (log : List String)
    → (process_remote link v body log).0 ≡ none
    → (process_remote link v body log).1 ≡ log ++ body.job_id ∷ []
unfolding process_remote process process_event raise_for_code
process_remote-done link v body log h = ground arith

claim_answer-ok :
    (reply : Reply CallJob) (job : CallJob) → claim_answer reply ≡ some (some job) → reply ≡ ok job
unfolding claim_answer
claim_answer-ok (ok x) job h = ground arith
claim_answer-ok (raised e) job h = ground arith

claim-some :
    (link : Link) (v : Verdict) (now : ℕ) (id : String) (db : Database) (job : CallJob)
    → (claim link v now id db).0 ≡ some (some job)
    → job.job_id ≡ id
unfolding claim serve_claim with_jobs claimed
claim-some link v now id db job h =
    let e = exchange-some link v (serve_claim now id) db (some job) h in
    let reply =
      claim_answer-ok (claim_event alone now id db.call_jobs).0 job (ap (λ x. x.0) (sym e) ∙ h) in
    let (r, found, can, same, left) =
      claim_event-eq-ok alone now id db.call_jobs (claim_event alone now id db.call_jobs).1 job
        (ap (λ x. (x, (claim_event alone now id db.call_jobs).1)) reply) in
    ap (λ (x : CallJob). x.job_id) same ∙ key-get job_key id db.call_jobs r found

-- A report that leaves the job completed follows a success of the integration call.
pub report-IsOpen :
    (env : Env) (job : CallJob) (id : String) (e : IntegrationError) (w : World)
    → IsOpen id w.db
    → IsOpen id (report env job (some e) w).1.db
unfolding report report_failure
report-IsOpen env job id e w o =
    fail-IsOpen env.report_link env.api_verdict env.report_now job.job_id id _ w.db o

pub open_not_completed :
    (id : String) (db : Database) (r : CallJob)
    → IsOpen id db
    → get job_key id db.call_jobs ≡ some r
    → is_completed r.status ≡ false
open_not_completed id db r (x, found, o) e = ground arith

pub report-processed :
    (env : Env) (job : CallJob) (outcome : Option IntegrationError) (w : World)
    → (report env job outcome w).1.processed ≡ w.processed
unfolding report report_success report_failure
report-processed env job none w = refl
report-processed env job (some e) w = refl

report-completed :
    (env : Env) (job : CallJob) (outcome : Option IntegrationError) (id : String) (w : World)
    (r : CallJob) (log : List String)
    → (outcome ≡ none → w.processed ≡ log)
    → IsOpen id w.db
    → get job_key id (report env job outcome w).1.db.call_jobs ≡ some r
    → is_completed r.status ≡ true
    → (report env job outcome w).1.processed ≡ log
report-completed env job none id w r log h o found done = report-processed env job none w ∙ h refl
report-completed env job (some e) id w r log h o found done = ground (
  arith,
  open_not_completed id (report env job (some e) w).1.db r (report-IsOpen env job id e w o) found,
)

after_claim-completed :
    (env : Env) (answer : Option (Option CallJob)) (id : String) (w : World) (r : CallJob)
    → ((job : CallJob) → answer ≡ some (some job) → job.job_id ≡ id)
    → IsOpen id w.db
    → get job_key id (after_claim env answer w).1.db.call_jobs ≡ some r
    → is_completed r.status ≡ true
    → (after_claim env answer w).1.processed ≡ w.processed ++ id ∷ []
unfolding after_claim drive request_of
after_claim-completed env none id w r own o found done =
    ground (arith, open_not_completed id w.db r o found)
after_claim-completed env (some none) id w r own o found done =
    ground (arith, open_not_completed id w.db r o found)
after_claim-completed env (some (some job)) id w r own o found done =
    let call =
      process_remote env.integration_link env.integration_verdict (request_of job) w.processed in
    report-completed env job call.0 id (record w { processed = call.1 }) r (w.processed ++ id ∷ [])
      (λ e.
        process_remote-done env.integration_link env.integration_verdict (request_of job)
          w.processed e
        ∙ ap (λ k. w.processed ++ k ∷ []) (own job refl))
      o found done

-- A job that was not completed is completed after `process_one` only if the integration service has
-- processed it in between, and that once.
pub process_one-completed :
    (env : Env) (id : String) (w : World) (before after : CallJob)
    → get job_key id w.db.call_jobs ≡ some before
    → is_completed before.status ≡ false
    → get job_key id (process_one env id w).1.db.call_jobs ≡ some after
    → is_completed after.status ≡ true
    → (process_one env id w).1.processed ≡ w.processed ++ id ∷ []
unfolding process_one
process_one-completed env id w before after found not_done left done =
    after_claim-completed env _ id _ after
      (λ job e. claim-some env.claim_link env.api_verdict env.claim_now id w.db job e)
      (claim-IsOpen env.claim_link env.api_verdict env.claim_now id id w.db
        (before, found, not_done))
      left done
