-- ===== src/Worker/Earned.antt =====
-- No premature completion by the whole loop of services/worker/src/main.py: its pops, its polls, its sweeps.
use ai_calling_agent.Prelude.{
  ℕ, ◌≡◌, refl, String, true, false, Option, none, some, List, [], ◌∷◌, ◌++◌, ◌⊎◌, inl, inr, arith,
  one_of, ◌==◌, eq_iff, Bool-cases, leb, ◌+◌, if_keep,
}
use ai_calling_agent.Prelude.Table.{get}
use ai_calling_agent.Models.{CallJob, job_key, Clock, Database, seconds}
use ai_calling_agent.Jobs.Schema.{is_completed, is_processing}
use ai_calling_agent.Jobs.Transitions.{Jobs, reap_row, is_stale, reaped_row}
use ai_calling_agent.Jobs.Machine as M
use ai_calling_agent.Jobs.Machine.{step, row_after, get-step}
use ai_calling_agent.Calls.Token.{Verdict}
use ai_calling_agent.Wire.{Link}
use ai_calling_agent.Worker.Integration.{
  ProcessEventRequest, process, process_event, process_remote, IntegrationError,
}
use ai_calling_agent.Worker.Clients.{
  serve_complete, complete, serve_reap, reap, with_jobs, list_eligible, claim,
}
use ai_calling_agent.Worker.Loop.{
  Env, World, request_of, report, report_success, drive, after_claim, process_one, raises, Cycle,
  process_all, poll, LoopState, sweep, work, round, run_loop, reap_interval_seconds,
}
use ai_calling_agent.Worker.Acks.{
  IsOpen, exchange-IsOpen, claim-IsOpen, process_remote-done, report-IsOpen, report-processed,
  open_not_completed,
}

-- The job is not completed, or the integration service has processed it.
abbrev pub IsEarned : String → World → Type 0
IsEarned id w = IsOpen id w.db ⊎ (one_of id w.processed ≡ true)

complete-IsOpen :
    (link : Link) (v : Verdict) (now : ℕ) (k id : String) (db : Database)
    → (k == id) ≡ false
    → IsOpen id db
    → IsOpen id (complete link v now k db).1
unfolding complete serve_complete with_jobs step row_after
complete-IsOpen link v now k id db n o =
    exchange-IsOpen id link v (serve_complete now k) db
      (λ o.
        let (r, found, not_done) = o in
        (
          row_after (M.complete now k) id r,
          get-step (M.complete now k) id db r found,
          ground arith,
        ))
      o

reap-IsOpen :
    (link : Link) (v : Verdict) (now : Clock) (id : String) (db : Database)
    → IsOpen id db
    → IsOpen id (reap link v now db).1
unfolding reap serve_reap with_jobs step row_after reap_row is_stale reaped_row is_processing
    is_completed
reap-IsOpen link v now id db o =
    exchange-IsOpen id link v (serve_reap now) db
      (λ o.
        let (r, found, not_done) = o in
        (row_after (M.reap now) id r, get-step (M.reap now) id db r found, ground arith))
      o

one_of-append :
    (id k : String) (log : List String) → one_of id log ≡ true → one_of id (log ++ k ∷ []) ≡ true
unfolding one_of
one_of-append id k [] h = cc
one_of-append id k (x ∷ log) h = ground (arith, one_of-append id k log)

one_of-last :
    (id k : String) (log : List String) → (k == id) ≡ true → one_of id (log ++ k ∷ []) ≡ true
unfolding one_of
one_of-last id k [] h = ground (arith, eq_iff id k, eq_iff k id)
one_of-last id k (x ∷ log) h = ground (arith, one_of-last id k log)

process_remote-grows :
    (link : Link) (v : Verdict) (body : ProcessEventRequest) (log : List String) (id : String)
    → one_of id log ≡ true
    → one_of id (process_remote link v body log).1 ≡ true
unfolding process_remote process process_event
process_remote-grows link v body log id h = ground (arith, one_of-append id body.job_id log)

-- Once it is processed it stays so.
after_claim-grows :
    (env : Env) (answer : Option (Option CallJob)) (id : String) (w : World)
    → one_of id w.processed ≡ true
    → one_of id (after_claim env answer w).1.processed ≡ true
unfolding after_claim drive
after_claim-grows env none id w h = h
after_claim-grows env (some none) id w h = h
after_claim-grows env (some (some job)) id w h =
    let call =
      process_remote env.integration_link env.integration_verdict (request_of job) w.processed in
    rw (report-processed env job call.0 (record w { processed = call.1 })) (
      process_remote-grows env.integration_link env.integration_verdict (request_of job) w.processed
        id h)

report_success-IsEarned :
    (env : Env) (job : CallJob) (id : String) (w : World) (log : List String)
    → w.processed ≡ log ++ job.job_id ∷ []
    → IsOpen id w.db
    → IsEarned id (report env job none w).1
unfolding report report_success
report_success-IsEarned env job id w log e o = elim (Bool-cases (job.job_id == id)) [
  | inl same ↦ inr (rw e (one_of-last id job.job_id log same))
  | inr n ↦
      inl (complete-IsOpen env.report_link env.api_verdict env.report_now.db job.job_id id w.db n o)
]

report-IsEarned :
    (env : Env) (job : CallJob) (outcome : Option IntegrationError) (id : String) (w : World)
    (log : List String)
    → (outcome ≡ none → w.processed ≡ log ++ job.job_id ∷ [])
    → IsOpen id w.db
    → IsEarned id (report env job outcome w).1
report-IsEarned env job none id w log h o = report_success-IsEarned env job id w log (h refl) o
report-IsEarned env job (some e) id w log h o = inl (report-IsOpen env job id e w o)

after_claim-IsEarned :
    (env : Env) (answer : Option (Option CallJob)) (id : String) (w : World)
    → IsEarned id w
    → IsEarned id (after_claim env answer w).1
unfolding after_claim drive request_of
after_claim-IsEarned env answer id w (inr h) = inr (after_claim-grows env answer id w h)
after_claim-IsEarned env none id w (inl o) = inl o
after_claim-IsEarned env (some none) id w (inl o) = inl o
after_claim-IsEarned env (some (some job)) id w (inl o) =
    let call =
      process_remote env.integration_link env.integration_verdict (request_of job) w.processed in
    report-IsEarned env job call.0 id (record w { processed = call.1 }) w.processed
      (process_remote-done env.integration_link env.integration_verdict (request_of job)
        w.processed)
      o

with_db :
    (id : String) (w : World) (db : Database)
    → (IsOpen id w.db → IsOpen id db)
    → IsEarned id w
    → IsEarned id (record w { db = db })
with_db id w db keep (inl o) = inl (keep o)
with_db id w db keep (inr h) = inr h

process_one-IsEarned :
    (env : Env) (k id : String) (w : World) → IsEarned id w → IsEarned id (process_one env k w).1
unfolding process_one
process_one-IsEarned env k id w h =
    let claiming = claim env.claim_link env.api_verdict env.claim_now k w.db in
    after_claim-IsEarned env claiming.0 id (record w { db = claiming.1 })
      (with_db id w claiming.1 (claim-IsOpen env.claim_link env.api_verdict env.claim_now k id w.db)
        h)

process_all-IsEarned :
    (c : Cycle) (jobs : Jobs) (id : String) (w : World)
    → IsEarned id w
    → IsEarned id (process_all c jobs w)
unfolding process_all
process_all-IsEarned c [] id w h = h
process_all-IsEarned c (job ∷ jobs) id w h =
    let first = process_one-IsEarned (c.env job.job_id) job.job_id id w h in
    let w' = (process_one (c.env job.job_id) job.job_id w).1 in
    if_keep (IsEarned id) (c.shutdown job.job_id) w _ h (
      if_keep (IsEarned id) (raises (process_one (c.env job.job_id) job.job_id w).0) w'
        (process_all c jobs w') first (process_all-IsEarned c jobs id w' first))

poll-IsEarned : (c : Cycle) (id : String) (w : World) → IsEarned id w → IsEarned id (poll c w)
unfolding poll
poll-IsEarned c id w h =
    go (list_eligible c.list_link c.verdict ("queued" ∷ "retrying" ∷ []) 10 c.list_now w.db)
  where
    go :
        (listed : Option Jobs)
        → IsEarned id (elim listed as (λ x. World) [ none ↦ w | some jobs ↦ process_all c jobs w ])
    go none = h
    go (some jobs) = process_all-IsEarned c jobs id w h

work-IsEarned : (c : Cycle) (id : String) (w : World) → IsEarned id w → IsEarned id (work c w)
unfolding work
work-IsEarned c id w h = go c.popped
  where
    go :
        (popped : Option String)
        → IsEarned id (elim popped as (λ x. World) [
          | none ↦ poll c w
          | some k ↦ (process_one (c.env k) k w).1
        ])
    go none = poll-IsEarned c id w h
    go (some k) = process_one-IsEarned (c.env k) k id w h

sweep-IsEarned :
    (c : Cycle) (id : String) (s : LoopState) → IsEarned id s.world → IsEarned id (sweep c s).world
unfolding sweep
sweep-IsEarned c id s h =
    if_keep (λ (t : LoopState). IsEarned id t.world)
      (leb (s.last_reap + seconds reap_interval_seconds) c.now) _ s
      (with_db id s.world (reap c.reap_link c.verdict c.reap_now s.world.db).1
        (reap-IsOpen c.reap_link c.verdict c.reap_now id s.world.db) h)
      h

run_loop-IsEarned :
    (cs : List Cycle) (id : String) (s : LoopState)
    → IsEarned id s.world
    → IsEarned id (run_loop cs s).world
unfolding run_loop round
run_loop-IsEarned [] id s h = h
run_loop-IsEarned (c ∷ cs) id s h =
    run_loop-IsEarned cs id (round c s)
      (work-IsEarned c id (sweep c s).world (sweep-IsEarned c id s h))

-- Whatever the links lose, whatever is popped, listed and swept, and wherever a signal ends a round: a job
-- that was not completed when the worker's loop began, and is completed after some rounds of it, is by then
-- among the jobs that the integration service has processed.
pub run_loop-completed :
    (cs : List Cycle) (s : LoopState) (id : String) (before after : CallJob)
    → get job_key id s.world.db.call_jobs ≡ some before
    → is_completed before.status ≡ false
    → get job_key id (run_loop cs s).world.db.call_jobs ≡ some after
    → is_completed after.status ≡ true
    → one_of id (run_loop cs s).world.processed ≡ true
run_loop-completed cs s id before after found not_done left done =
    elim (run_loop-IsEarned cs id s (inl (before, found, not_done))) [
      | inr h ↦ h
      | inl o ↦ ground (arith, open_not_completed id (run_loop cs s).world.db after o left)
    ]
