-- ===== src/Jobs/Failures.antt =====
-- Failure reports, retries and their delays (`fail_event`, `_backoff_seconds` and `_truncate_error` of
-- services/api/src/routers/jobs.py).
use Prim.Native.String.{count}
use text.Mathlib.TextLemmas
use native.Mathlib.Nat.{pow-suc}
use ai_calling_agent.Prelude.{
  ℕ, zero, suc, ◌+◌, ◌-◌, ◌*◌, ◌^◌, ◌≤◌, ◌<◌, ◌≡◌, refl, min, max, String, true, false, some, List,
  ap, ◌∙◌, arith, eq_refl, leb,
}
use ai_calling_agent.Prelude.Text.{take_chars, count-take_chars-le}
use ai_calling_agent.Prelude.Table.{get}
use ai_calling_agent.Models.{failed, CallJob, job_key, Database, Clock, seconds}
use ai_calling_agent.Jobs.Schema.{
  is_terminal, is_claimable, is_processing, backoff_seconds, truncate_error, EventFailRequest,
  is_valid_fail,
}
use ai_calling_agent.Jobs.Transitions.{
  Jobs, claim_event, can_claim, can_retry, failed_row, fail_event,
}
use ai_calling_agent.Jobs.Machine.{Request, alone, run, row_after, get-fail_event}
use ai_calling_agent.Jobs.Claims.{is_ok, is_ok-claim_event}
use ai_calling_agent.Jobs.Lifecycle.{run_of_terminal}

one-le-pow_two : (n : ℕ) → 1 ≤ 2 ^ n
one-le-pow_two zero = omega arith
one-le-pow_two (suc n) = omega (arith, pow-suc 2 n, one-le-pow_two n)

-- The delay before a retry is 5 seconds at least and 300 seconds at most.
pub backoff_seconds_bounds : (n : ℕ) → (5 ≤ backoff_seconds n) × (backoff_seconds n ≤ 300)
unfolding backoff_seconds
backoff_seconds_bounds n = omega (arith, one-le-pow_two (max (n - 1) 0))

-- The first delay is 5 seconds, and each further attempt doubles the delay up to 300 seconds.
pub backoff_seconds_doubles :
    (n : ℕ)
    → (backoff_seconds 1 ≡ 5)
      × (backoff_seconds (suc (suc n)) ≡ min (2 * backoff_seconds (suc n)) 300)
unfolding backoff_seconds
backoff_seconds_doubles n =
    let now : max (suc (suc n) - 1) 0 ≡ suc n = omega arith in
    let before : max (suc n - 1) 0 ≡ n = omega arith in
    (refl, rw (now, before, pow-suc) (omega arith))

-- A stored error text has at most 2014 characters.
pub count-truncate_error-le : (text : String) → count (truncate_error text) ≤ 2014
unfolding truncate_error
count-truncate_error-le text = ground (
  arith,
  count-take_chars-le 2000 text,
  TextLemmas.length-append (take_chars 2000 text) "...(truncated)",
)

module _ (now : Clock) (id : String) (body : EventFailRequest) (jobs : Jobs) (r : CallJob)
    (found : get job_key id jobs ≡ some r) where
  row_of_failed :
      is_valid_fail body ≡ true
      → is_processing r.status ≡ true
      → get job_key id (fail_event alone now id body jobs).1 ≡ some (failed_row now body r r)
  row_of_failed valid busy =
      get-fail_event id jobs r found now id body
      ∙ ap some (unfold row_after in rw (eq_refl id, valid, busy) refl)

  -- A failed attempt that may be retried is claimable again once its delay, counted from the report,
  -- has passed, and not before; the report and the claim are carried out alone.
  pub fail_event-claim_event :
      (now' : ℕ)
      → is_valid_fail body ≡ true
      → is_processing r.status ≡ true
      → body.retry ≡ true
      → r.attempts < r.max_attempts
      → is_ok (claim_event alone now' id (fail_event alone now id body jobs).1).0
        ≡ leb (now.utc + seconds (backoff_seconds r.attempts)) now'
  unfolding failed_row can_claim is_claimable
  fail_event-claim_event now' valid busy again left =
      is_ok-claim_event now' id _ (failed_row now body r r) (row_of_failed valid busy)
      ∙ ground arith

  -- A job that fails with no attempt left, or without a wish to retry, is failed from then on,
  -- whatever requests follow, where the report and each of them is carried out alone.
  pub fail_event-exhausted :
      (rqs : List Request) (db : Database)
      → db.call_jobs ≡ (fail_event alone now id body jobs).1
      → is_valid_fail body ≡ true
      → is_processing r.status ≡ true
      → can_retry body r ≡ false
      → (job : CallJob) × (get job_key id (run rqs db).call_jobs ≡ some job)
        × (job.status ≡ failed)
        × (job.attempts ≡ r.attempts)
        × (job.processed_at ≡ some now.db)
  unfolding is_terminal failed_row
  fail_event-exhausted rqs db left valid busy last = (
    failed_row now body r r,
    run_of_terminal rqs id db (failed_row now body r r) (rw left (row_of_failed valid busy))
        (ground arith),
    ground arith,
    ground arith,
    ground arith,
  )
