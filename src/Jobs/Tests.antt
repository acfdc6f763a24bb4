-- ===== src/Jobs/Tests.antt =====
-- The job API at concrete inputs: each theorem that has hypotheses, applied where they hold.
use ai_calling_agent.Prelude.{
  ◌+◌, ◌≤◌, ◌≡◌, refl, true, false, ◌&&◌, none, some, List, [], ◌∷◌, arith, leb, ltb,
}
use ai_calling_agent.Prelude.Table.{get, put, update}
use ai_calling_agent.Models.{
  queued, processing, completed, failed, retrying, CallJob, job_key, Database, Clock, seconds,
}
use ai_calling_agent.Jobs.Schema.{
  EventCreateRequest, EventFailRequest, is_valid_create, is_valid_fail, is_terminal, is_claimable,
  is_processing, backoff_seconds, ok, raised, not_claimable,
}
use ai_calling_agent.Jobs.Create.{
  has_event, find_event, new_job, job_fits, create_event, insert_job,
}
use ai_calling_agent.Jobs.Transitions.{
  Jobs, can_claim, claimed, claim_event, complete_event, can_retry, fail_event, is_stale,
  reap_stale_jobs,
}
use ai_calling_agent.Jobs.Valid.{IsValid, IsValidTable}
use ai_calling_agent.Jobs.Machine.{Request, create, claim, complete, fail, reap, alone, step, run}
use ai_calling_agent.Jobs.Moves.{Moves, step-Moves}
use ai_calling_agent.Jobs.Lifecycle.{run-IsValid, run_of_terminal}
use ai_calling_agent.Jobs.Claims.{
  is_ok, wins, claims_won, claims_won-le, leaves_lease, claims_won_of_lease,
  claim_event-claim_event,
}
use ai_calling_agent.Jobs.Failures.{fail_event-claim_event, fail_event-exhausted}
use ai_calling_agent.Jobs.Races.{complete_event-complete_event, fail_event_of_reclaimed}
use ai_calling_agent.Jobs.Reaping.{claim_event-reap_stale_jobs}
use ai_calling_agent.Jobs.Idempotence.{create_event-create_event}
use ai_calling_agent.Jobs.Uniqueness.{holders, holders-run-le}

abbrev answered : EventCreateRequest
answered = record {
  event_type = "answered";
  provider_call_id = some "exo-1";
  tenant_id = none;
  call_id = none;
  payload = none;
  max_attempts = some 2;
}

abbrev fresh_job : CallJob
fresh_job = record {
  job_id = "job-1";
  tenant_id = none;
  call_id = none;
  provider_call_id = some "exo-1";
  event_type = "answered";
  payload = none;
  status = queued;
  attempts = 0;
  max_attempts = 2;
  last_error = none;
  created_at = 100;
  updated_at = 100;
  available_at = 100;
  processed_at = none;
}

abbrev busy_job : CallJob
busy_job = record fresh_job { status = processing; attempts = 1; updated_at = 200 }

abbrev last_try : CallJob
last_try = record busy_job { attempts = 2 }

abbrev done_job : CallJob
done_job = record busy_job { status = completed; processed_at = some 300 }

abbrev empty : Database
empty = record { call_jobs = []; calls = []; phone_number_routes = [] }

abbrev with_job : CallJob → Database
with_job job = record empty { call_jobs = job ∷ [] }

abbrev timed_out : EventFailRequest
timed_out = record { error = "timeout"; retry = true }

abbrev clock : Clock
clock = record { utc = 1_000_000_000; db = 1_000_000_000 }

abbrev traffic : List Request
traffic =
    claim 150 "job-1"
    ∷ fail clock "job-1" timed_out
    ∷ claim 2_000_000_000 "job-1"
    ∷ reap clock
    ∷ complete 2_000_000_001 "job-1"
    ∷ []

fresh_job-IsValid : IsValid fresh_job
unfolding is_terminal
fresh_job-IsValid = ground arith

busy_job-IsValid : IsValid busy_job
unfolding is_terminal
busy_job-IsValid = ground arith

found : (job : CallJob) → job.job_id ≡ "job-1" → get job_key "job-1" (job ∷ []) ≡ some job
unfolding get
found job e = rw e

-- Two claims succeed in this traffic, and the job ends completed.
traffic_claims : claims_won "job-1" traffic (with_job fresh_job) ≡ 2
unfolding claims_won wins step claim_event complete_event fail_event reap_stale_jobs update get put
    backoff_seconds
traffic_claims = refl

claims_won-le_example : claims_won "job-1" traffic (with_job fresh_job) + 0 ≤ 2
claims_won-le_example =
    claims_won-le traffic "job-1" (with_job fresh_job) fresh_job (found fresh_job refl)
      fresh_job-IsValid

step-Moves_example :
    (after : CallJob) × (get job_key "job-1"
        (step (claim 150 "job-1") (with_job fresh_job)).call_jobs
      ≡ some after)
    × Moves (claim 150 "job-1") fresh_job after
step-Moves_example =
    step-Moves (claim 150 "job-1") "job-1" (with_job fresh_job) fresh_job (found fresh_job refl)

run_of_terminal_example :
    get job_key "job-1" (run traffic (with_job done_job)).call_jobs ≡ some done_job
unfolding is_terminal
run_of_terminal_example =
    run_of_terminal traffic "job-1" (with_job done_job) done_job (found done_job refl) refl

run-IsValid_example : IsValidTable (run traffic (with_job fresh_job)).call_jobs
run-IsValid_example = run-IsValid traffic (with_job fresh_job) (fresh_job-IsValid, tt)

claims_won_of_lease_example :
    claims_won "job-1" (claim 300 "job-1" ∷ claim 301 "job-1" ∷ []) (with_job busy_job) ≡ 0
unfolding is_claimable leaves_lease
claims_won_of_lease_example =
    claims_won_of_lease (claim 300 "job-1" ∷ claim 301 "job-1" ∷ []) "job-1" (with_job busy_job)
      busy_job (found busy_job refl) refl (refl, (refl, tt))

-- After the claim: another claim, an event, and a report of another job.
abbrev during : List Request
during = claim 160 "job-1" ∷ create 170 "job-2" answered ∷ complete 180 "job-2" ∷ []

claim_event-claim_event_example :
    claim_event alone 151 "job-1" (run during (with_job (claimed 150 fresh_job))).call_jobs
    ≡ (raised (not_claimable processing), (run during (with_job (claimed 150 fresh_job))).call_jobs)
unfolding claim_event update get put can_claim claimed
claim_event-claim_event_example =
    claim_event-claim_event alone 150 151 "job-1" (fresh_job ∷ []) (claimed 150 fresh_job)
      (with_job (claimed 150 fresh_job)) during refl (refl, (refl, (refl, tt)))

fail_event-claim_event_example :
    is_ok
      (claim_event alone 5_000 "job-1"
        (fail_event alone clock "job-1" timed_out (busy_job ∷ [])).1).0
    ≡ leb (1_000_000_000 + seconds (backoff_seconds 1)) 5_000
unfolding is_valid_fail is_processing
fail_event-claim_event_example =
    fail_event-claim_event clock "job-1" timed_out (busy_job ∷ []) busy_job (found busy_job refl)
      5_000 refl refl refl (omega arith)

fail_event-exhausted_example :
    (job : CallJob) × (get job_key "job-1"
        (run traffic (record empty {
          call_jobs = (fail_event alone clock "job-1" timed_out (last_try ∷ [])).1;
        })).call_jobs
      ≡ some job)
    × (job.status ≡ failed)
    × (job.attempts ≡ 2)
    × (job.processed_at ≡ some clock.db)
unfolding is_valid_fail is_processing can_retry
fail_event-exhausted_example =
    fail_event-exhausted clock "job-1" timed_out (last_try ∷ []) last_try (found last_try refl)
      traffic
      (record empty { call_jobs = (fail_event alone clock "job-1" timed_out (last_try ∷ [])).1 })
      refl refl refl refl

-- Another report completes the job between the SELECT of the first one and its UPDATE.
abbrev overtaken : Jobs → Jobs
overtaken jobs = done_job ∷ []

complete_event-complete_event_example :
    (done_job.status ≡ completed)
    × (complete_event alone alone 400 "job-1" (run traffic (with_job done_job)).call_jobs
        ≡ (ok done_job, (run traffic (with_job done_job)).call_jobs))
unfolding complete_event update get put
complete_event-complete_event_example =
    complete_event-complete_event overtaken alone 300 400 "job-1" (busy_job ∷ []) done_job
      (with_job done_job) traffic refl

-- While the handler waits, the job is reaped and claimed for its second and last attempt.
abbrev reclaim : Jobs → Jobs
reclaim jobs = last_try ∷ []

fail_event_of_reclaimed_example :
    (job : CallJob) × (get job_key "job-1"
        (fail_event reclaim clock "job-1" timed_out (busy_job ∷ [])).1
      ≡ some job)
    × (job.status ≡ retrying)
    × (job.attempts ≡ 2)
    × (¬ IsValid job)
unfolding is_valid_fail is_processing
fail_event_of_reclaimed_example =
    fail_event_of_reclaimed reclaim clock "job-1" timed_out (busy_job ∷ []) busy_job last_try
      (found busy_job refl) (found last_try refl) refl refl refl refl (omega arith) (omega arith)

same_attempts :
    (e r : CallJob)
    → get job_key "job-1" (busy_job ∷ []) ≡ some e
    → get job_key "job-1" (alone (busy_job ∷ [])) ≡ some r
    → (e.attempts ≡ r.attempts) × (e.max_attempts ≡ r.max_attempts)
same_attempts e r p q = ground arith

claim_event-reap_stale_jobs_example :
    is_ok (claim_event alone 1_000_000_001 "job-1" (reap_stale_jobs clock (busy_job ∷ [])).1).0
    ≡ (ltb 1 2 && leb 1_000_000_000 1_000_000_001)
unfolding is_stale
claim_event-reap_stale_jobs_example =
    claim_event-reap_stale_jobs clock 1_000_000_001 "job-1" (busy_job ∷ []) busy_job
      (found busy_job refl) refl

create_event-create_event_example :
    (job : CallJob) × (job.job_id ≡ "job-1")
    × (create_event alone 900 "job-2" answered
          (run traffic (create_event alone 100 "job-1" answered empty none).db)
          none
        ≡ record {
          reply = ok (record { duplicate = true; job = job });
          db = run traffic (create_event alone 100 "job-1" answered empty none).db;
          queue = none;
        })
unfolding create_event insert_job find_event get is_valid_create job_fits new_job
create_event-create_event_example =
    create_event-create_event 100 900 "job-1" "job-2" answered answered empty none none traffic
      "exo-1" (record { duplicate = false; job = fresh_job }) refl refl refl refl refl refl

holders-run-le_example : holders "exo-1" "answered" (run traffic (with_job fresh_job)).call_jobs ≤ 1
unfolding holders has_event
holders-run-le_example =
    holders-run-le "exo-1" "answered" traffic (with_job fresh_job) (omega arith)
