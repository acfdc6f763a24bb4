-- ===== src/Worker/Deliveries.antt =====
-- How often services/worker/src/main.py has an event processed.
use ai_calling_agent.Prelude.{
  ◌≡◌, refl, String, true, some, [], ◌∷◌, ◌++◌, ◌+◌, arith, ap, ◌∙◌, leb, ltb,
}
use ai_calling_agent.Prelude.Table.{get, put, get-put_self, key-get}
use ai_calling_agent.Models.{CallJob, job_key, Clock, Database}
use ai_calling_agent.Jobs.Transitions.{can_claim, claimed, is_stale, reap_row, reap_stale_jobs}
use ai_calling_agent.Jobs.Machine.{alone, get-map_reap}
use ai_calling_agent.Jobs.Claims.{claim_event_of_found}
use ai_calling_agent.Calls.Token.{admitted}
use ai_calling_agent.Wire.{delivered, unreachable, exchange, guarded}
use ai_calling_agent.Worker.Integration.{process_event, process_remote, process}
use ai_calling_agent.Worker.Clients.{claim, serve_claim, claim_answer, with_jobs, complete}
use ai_calling_agent.Worker.Loop.{
  Env, World, complete_unreported, request_of, report, report_success, drive, after_claim,
  process_one,
}

-- The claim and the integration call go through.
pub record Reaches (env : Env) : Type 0 where
  pub claims : env.claim_link ≡ delivered
  pub api : env.api_verdict ≡ admitted
  pub integrates : env.integration_link ≡ delivered
  pub service : env.integration_verdict ≡ admitted

claim_of_ready :
    (env : Env) (id : String) (db : Database) (r : CallJob)
    → Reaches env
    → get job_key id db.call_jobs ≡ some r
    → can_claim env.claim_now r ≡ true
    → claim env.claim_link env.api_verdict env.claim_now id db ≡ (
      some (some (claimed env.claim_now r)),
      record db { call_jobs = put job_key id (claimed env.claim_now r) db.call_jobs },
    )
unfolding claim serve_claim with_jobs claim_answer exchange guarded
claim_of_ready env id db r ready found can = ground (
  arith,
  ready.claims,
  ready.api,
  claim_event_of_found alone env.claim_now id db.call_jobs r found,
)

process_one_of_ready :
    (env : Env) (id : String) (w : World) (r : CallJob)
    → Reaches env
    → get job_key id w.db.call_jobs ≡ some r
    → can_claim env.claim_now r ≡ true
    → process_event (request_of (claimed env.claim_now r)) ≡ 200
    → process_one env id w
      ≡ report_success env (claimed env.claim_now r) (record {
        db = record w.db { call_jobs = put job_key id (claimed env.claim_now r) w.db.call_jobs };
        processed = w.processed ++ r.job_id ∷ [];
      })
unfolding process_one after_claim drive report process_remote process request_of claimed
process_one_of_ready env id w r ready found can good =
    ground (arith, ready.integrates, ready.service, claim_of_ready env id w.db r ready found can)

report_success_of_unreachable :
    (env : Env) (job : CallJob) (w : World)
    → env.report_link ≡ unreachable
    → report_success env job w ≡ (complete_unreported, w)
unfolding report_success complete exchange
report_success_of_unreachable env job w lost = ground (arith, lost)

report_success-processed :
    (env : Env) (job : CallJob) (w : World) → (report_success env job w).1.processed ≡ w.processed
unfolding report_success
report_success-processed env job w = refl

-- The world after a sweep.
abbrev pub swept : Clock → World → World
swept now w = record w { db = record w.db { call_jobs = (reap_stale_jobs now w.db.call_jobs).1 } }

process_one_of_swept :
    (env : Env) (now : Clock) (id : String) (w : World) (job : CallJob)
    → Reaches env
    → get job_key id w.db.call_jobs ≡ some job
    → process_event (request_of job) ≡ 200
    → is_stale now.utc job ≡ true
    → ltb job.attempts job.max_attempts ≡ true
    → leb now.db env.claim_now ≡ true
    → (process_one env id (swept now w)).1.processed ≡ w.processed ++ id ∷ []
unfolding reap_stale_jobs reap_row can_claim request_of claimed process_event
process_one_of_swept env now id w job ready found good stale again due =
    let back = get-map_reap id now w.db.call_jobs job found in
    let run : process_one env id (swept now w)
        ≡ report_success env (claimed env.claim_now (reap_row now job)) (record {
          db = record w.db {
            call_jobs =
                put job_key id (claimed env.claim_now (reap_row now job))
                  (swept now w).db.call_jobs;
          };
          processed = w.processed ++ (reap_row now job).job_id ∷ [];
        }) =
      process_one_of_ready env id (swept now w) (reap_row now job) ready back (ground arith)
        (ground arith) in
    ap (λ x. x.1.processed) run
    ∙ (unfold report_success in ground (arith, key-get job_key id w.db.call_jobs job found))

after_claimed : Env → String → World → CallJob → World
after_claimed env id w r = record {
  db = record w.db { call_jobs = put job_key id (claimed env.claim_now r) w.db.call_jobs };
  processed = w.processed ++ r.job_id ∷ [];
}

process_one_of_lost_report :
    (env : Env) (id : String) (w : World) (r : CallJob)
    → Reaches env
    → env.report_link ≡ unreachable
    → get job_key id w.db.call_jobs ≡ some r
    → can_claim env.claim_now r ≡ true
    → process_event (request_of r) ≡ 200
    → ((process_one env id w).0 ≡ complete_unreported)
      × (get job_key id (process_one env id w).1.db.call_jobs ≡ some (claimed env.claim_now r))
      × ((process_one env id w).1.processed ≡ w.processed ++ id ∷ [])
unfolding request_of claimed after_claimed
process_one_of_lost_report env id w r ready lost found can good =
    let same = key-get job_key id w.db.call_jobs r found in
    let held : get job_key id (put job_key id (claimed env.claim_now r) w.db.call_jobs)
        ≡ some (claimed env.claim_now r) =
      get-put_self job_key id (claimed env.claim_now r) w.db.call_jobs r same found in
    let run : process_one env id w ≡ (complete_unreported, after_claimed env id w r) =
      process_one_of_ready env id w r ready found can good
      ∙ report_success_of_unreachable env (claimed env.claim_now r) (after_claimed env id w r)
          lost in
    (
      ap (λ x. x.0) run,
      ap (λ x. get job_key id x.1.db.call_jobs) run ∙ held,
      ap (λ x. x.1.processed) run ∙ ap (λ k. w.processed ++ k ∷ []) same,
    )

-- Two attempts at a job that can be claimed, whose event the service accepts, with the claim and the
-- integration call going through in both: where the first attempt's completion does not reach the API,
-- the job is left in processing; and where it has attempts left, a sweep finds it stale and the second
-- attempt is not before the sweep, the event is processed a second time.
pub process_one-process_one :
    (env env' : Env) (now : Clock) (id : String) (w : World) (r : CallJob)
    → Reaches env
    → Reaches env'
    → env.report_link ≡ unreachable
    → get job_key id w.db.call_jobs ≡ some r
    → can_claim env.claim_now r ≡ true
    → process_event (request_of r) ≡ 200
    → is_stale now.utc (claimed env.claim_now r) ≡ true
    → ltb (r.attempts + 1) r.max_attempts ≡ true
    → leb now.db env'.claim_now ≡ true
    → let first = process_one env id w in
      (first.0 ≡ complete_unreported)
      × (get job_key id first.1.db.call_jobs ≡ some (claimed env.claim_now r))
      × ((process_one env' id (swept now first.1)).1.processed ≡ w.processed ++ id ∷ [] ++ id ∷ [])
unfolding request_of claimed
process_one-process_one env env' now id w r ready ready' lost found can good stale again due =
    let (left, held, once) = process_one_of_lost_report env id w r ready lost found can good in
    (
      left,
      held,
      process_one_of_swept env' now id (process_one env id w).1 (claimed env.claim_now r) ready'
            held good stale again due
          ∙ ap (λ l. l ++ id ∷ []) once,
    )
