-- ===== src/Worker/Loop.antt =====
-- services/worker/src/main.py: `process_one` and the loop around it.
use ai_calling_agent.Prelude.{
  ℕ, ◌+◌, String, Bool, true, false, Option, none, some, List, [], ◌∷◌, leb, if◌then◌else◌,
}
use ai_calling_agent.Models.{CallJob, JobStatus, Clock, Database, seconds}
use ai_calling_agent.Jobs.Transitions.{Jobs}
use ai_calling_agent.Calls.Token.{Verdict}
use ai_calling_agent.Wire.{Link}
use ai_calling_agent.Worker.Integration.{
  ProcessEventRequest, IntegrationError, error_text, process_remote,
}
use ai_calling_agent.Worker.Clients.{claim, complete, fail, reap, list_eligible}

-- What one `process_one` meets: the links, the guards' verdicts on the worker's token, the clocks, and
-- the text of an error response of the integration service.
pub record Env : Type 0 where
  pub claim_link : Link
  pub integration_link : Link
  pub report_link : Link
  pub api_verdict : Verdict
  pub integration_verdict : Verdict
  pub claim_now : ℕ
  pub report_now : Clock
  pub response_text : String

-- The database behind the job API, and the jobs that the integration service processed.
pub record World : Type 0 where
  pub db : Database
  pub processed : List String

-- How `process_one` ends; `api_error` is the JobsApiError of the claim, which it does not catch.
pub data Result : Type 0 where
  api_error not_claimed completed complete_unreported fail_unreported : Result
  failure_reported : JobStatus → Result

unfoldable pub request_of : CallJob → ProcessEventRequest
request_of job = record {
  job_id = job.job_id;
  tenant_id = job.tenant_id;
  call_id = job.call_id;
  event_type = job.event_type;
  payload = job.payload;
}

unfoldable pub report_failure : Env → CallJob → IntegrationError → World → Result × World
report_failure env job e w =
    let (updated, db) =
      fail env.report_link env.api_verdict env.report_now job.job_id
        (record { error = error_text env.response_text e; retry = true }) w.db in
    (
      elim updated [ none ↦ fail_unreported | some u ↦ failure_reported u.status ],
      record w { db = db },
    )

unfoldable pub report_success : Env → CallJob → World → Result × World
report_success env job w =
    let (done, db) = complete env.report_link env.api_verdict env.report_now.db job.job_id w.db in
    (elim done [ none ↦ complete_unreported | some j ↦ completed ], record w { db = db })

-- After the integration call.
unfoldable pub report : Env → CallJob → Option IntegrationError → World → Result × World
unfolding report_failure report_success
report env job none w = report_success env job w
report env job (some e) w = report_failure env job e w

-- A claimed job.
unfoldable pub drive : Env → CallJob → World → Result × World
unfolding request_of report
drive env job w =
    let (outcome, processed) =
      process_remote env.integration_link env.integration_verdict (request_of job) w.processed in
    report env job outcome (record w { processed = processed })

-- After the claim.
unfoldable pub after_claim : Env → Option (Option CallJob) → World → Result × World
unfolding drive
after_claim env none w = (api_error, w)
after_claim env (some none) w = (not_claimed, w)
after_claim env (some (some job)) w = drive env job w

unfoldable pub process_one : Env → String → World → Result × World
unfolding after_claim
process_one env id w =
    let (answer, db) = claim env.claim_link env.api_verdict env.claim_now id w.db in
    after_claim env answer (record w { db = db })

-- One round of the loop: the clock, the links, what BLPOP gave (`none` on a timeout and on a
-- RedisError alike), what each `process_one` meets, and at which jobs a signal has arrived.
pub record Cycle : Type 0 where
  pub now : ℕ
  pub verdict : Verdict
  pub reap_link : Link
  pub reap_now : Clock
  pub popped : Option String
  pub list_link : Link
  pub list_now : ℕ
  pub env : String → Env
  pub shutdown : String → Bool

unfoldable pub raises : Result → Bool
raises api_error = true
raises _ = false

-- The jobs of the listing in order, until a signal or a JobsApiError.
unfoldable pub process_all : Cycle → Jobs → World → World
unfolding raises
process_all c [] w = w
process_all c (job ∷ jobs) w =
    let (result, w') = process_one (c.env job.job_id) job.job_id w in
    let rest = process_all c jobs w' in
    if c.shutdown job.job_id then w else if raises result then w' else rest

-- The fallback of a round without a wake-up.
unfoldable pub poll : Cycle → World → World
unfolding process_all
poll c w =
    elim (list_eligible c.list_link c.verdict ("queued" ∷ "retrying" ∷ []) 10 c.list_now w.db) [
      | none ↦ w
      | some jobs ↦ process_all c jobs w
    ]

pub record LoopState : Type 0 where
  pub last_reap : ℕ
  pub world : World

-- REAP_INTERVAL_SECONDS, with its default
abbrev pub reap_interval_seconds : ℕ
reap_interval_seconds = 60

-- The sweep at the head of a round, where it is due.
unfoldable pub sweep : Cycle → LoopState → LoopState
sweep c s =
    if leb (s.last_reap + seconds reap_interval_seconds) c.now
    then record {
      last_reap = c.now;
      world = record s.world { db = (reap c.reap_link c.verdict c.reap_now s.world.db).1 };
    }
    else s

-- The jobs of a round.
unfoldable pub work : Cycle → World → World
unfolding poll
work c w = elim c.popped [ none ↦ poll c w | some id ↦ (process_one (c.env id) id w).1 ]

unfoldable pub round : Cycle → LoopState → LoopState
unfolding sweep work
round c s = record (sweep c s) { world = work c (sweep c s).world }

-- The rounds until a signal.
unfoldable pub run_loop : List Cycle → LoopState → LoopState
unfolding round
run_loop [] s = s
run_loop (c ∷ cs) s = run_loop cs (round c s)
