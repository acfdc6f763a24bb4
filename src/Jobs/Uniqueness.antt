-- ===== src/Jobs/Uniqueness.antt =====
-- No two rows hold one event key (the partial unique index of `call_jobs` in
-- services/api/src/models.py, as services/api/src/routers/jobs.py meets it).
use mathlib.Core.List.{map}
use ai_calling_agent.Prelude.{
  ℕ, suc, ◌≤◌, ◌≡◌, refl, String, Bool, true, false, none, some, List, [], ◌∷◌, ◌++◌, inl, inr,
  arith, Option-cases, if◌then◌else◌, eq_iff,
}
use ai_calling_agent.Prelude.Table.{get, update, after, put, update_of_missing, update_of_guard}
use ai_calling_agent.Models.{CallJob, job_key, Database, Clock}
use ai_calling_agent.Jobs.Schema.{EventCreateRequest, EventFailRequest, is_processing}
use ai_calling_agent.Jobs.Create.{has_event, find_event, new_job, create_event, event_taken}
use ai_calling_agent.Jobs.Transitions.{
  Jobs, can_claim, claimed, claim_event, done_at, complete_event, complete_update, failed_row,
  fail_event, fail_update, reap_row, reap_stale_jobs,
}
use ai_calling_agent.Jobs.Machine.{Request, create, claim, complete, fail, reap, alone, step, run}
use ai_calling_agent.Jobs.Events.{SameEvent, has_event-SameEvent, insert_job-inserted}
use ai_calling_agent.Jobs.Idempotence.{failed_row-SameEvent, insert_cases}

-- How many rows hold the key.
unfoldable pub holders : String → String → Jobs → ℕ
holders pid event [] = 0
holders pid event (job ∷ jobs) =
    let rest = holders pid event jobs in if has_event pid event job then suc rest else rest

module _ (pid event : String) where
  holders-put :
      (k : String) (v : CallJob) (jobs : Jobs) (r : CallJob)
      → SameEvent v r
      → get job_key k jobs ≡ some r
      → holders pid event (put job_key k v jobs) ≡ holders pid event jobs
  unfolding holders get put
  holders-put k v [] r h found = refl
  holders-put k v (x ∷ jobs) r h found =
      ground (arith, holders-put k v jobs r h, has_event-SameEvent pid event v r h)

  holders-after :
      (k : String) (guard : CallJob → Bool) (f : CallJob → CallJob) (jobs : Jobs)
      → ((x : CallJob) → SameEvent (f x) x)
      → holders pid event (after job_key (update job_key k guard f jobs) jobs)
        ≡ holders pid event jobs
  holders-after k guard f jobs same = elim (Option-cases (get job_key k jobs)) [
    | inl missing ↦ rw (update_of_missing job_key k guard f jobs missing)
    | inr (r, found) ↦
        rw (update_of_guard job_key k guard f jobs r found)
          (ground (arith, holders-put k (f r) jobs r (same r) found))
  ]

  holders-map :
      (now : Clock) (jobs : Jobs)
      → holders pid event (map (reap_row now) jobs) ≡ holders pid event jobs
  unfolding holders reap_row has_event
  holders-map now [] = refl
  holders-map now (x ∷ jobs) = ground (arith, holders-map now jobs)

  holders-append :
      (jobs : Jobs) (x : CallJob)
      → holders pid event (jobs ++ x ∷ [])
        ≡ (if has_event pid event x then suc (holders pid event jobs) else holders pid event jobs)
  unfolding holders
  holders-append [] x = ground arith
  holders-append (y ∷ jobs) x = ground (arith, holders-append jobs x)

  holders_of_free : (jobs : Jobs) → find_event pid event jobs ≡ none → holders pid event jobs ≡ 0
  unfolding holders find_event
  holders_of_free [] e = refl
  holders_of_free (x ∷ jobs) e = ground (arith, holders_of_free jobs)

  holders-claim_event :
      (now : ℕ) (id : String) (jobs : Jobs)
      → holders pid event (claim_event alone now id jobs).1 ≡ holders pid event jobs
  unfolding claim_event claimed
  holders-claim_event now id jobs =
      ground (arith, holders-after id (can_claim now) (claimed now) jobs (λ x. (refl, refl, refl)))

  holders-complete_event :
      (now : ℕ) (id : String) (jobs : Jobs)
      → holders pid event (complete_event alone alone now id jobs).1 ≡ holders pid event jobs
  unfolding complete_event complete_update done_at
  holders-complete_event now id jobs = ground (
    arith,
    holders-after id (λ x. is_processing x.status) (done_at now) jobs (λ x. (refl, refl, refl)),
  )

  holders-fail_event :
      (now : Clock) (body : EventFailRequest) (id : String) (jobs : Jobs)
      → holders pid event (fail_event alone now id body jobs).1 ≡ holders pid event jobs
  unfolding fail_event fail_update
  holders-fail_event now body id jobs = elim (Option-cases (get job_key id jobs)) [
    | inl missing ↦ ground arith
    | inr (r, found) ↦ ground (
      arith,
      holders-after id (λ x. is_processing x.status) (failed_row now body r) jobs
          (failed_row-SameEvent now body r),
    )
  ]

  -- The row that takes a key finds it free.
  has_event-taken :
      (x : CallJob) (jobs : Jobs)
      → has_event pid event x ≡ true
      → event_taken x.provider_call_id x.event_type jobs ≡ false
      → find_event pid event jobs ≡ none
  unfolding has_event event_taken
  has_event-taken x jobs h free = elim (Option-cases x.provider_call_id) [
    | inl e ↦ ground arith
    | inr (p, e) ↦ ground (arith, eq_iff p pid, eq_iff x.event_type event)
  ]

  holders-create_event :
      (now : ℕ) (fresh_id : String) (body : EventCreateRequest) (db : Database)
      → holders pid event db.call_jobs ≤ 1
      → holders pid event (create_event alone now fresh_id body db none).db.call_jobs ≤ 1
  unfolding create_event
  holders-create_event now fresh_id body db h = elim (insert_cases (new_job now fresh_id body) db) [
    | inl (db', done) ↦
        let (left, free) = insert_job-inserted (new_job now fresh_id body) db db' done in
        ground (
          arith,
          holders-append db.call_jobs (new_job now fresh_id body),
          has_event-taken (new_job now fresh_id body) db.call_jobs,
          holders_of_free db.call_jobs,
        )
    | inr (err, refusal) ↦ ground arith
  ]

  holders-step :
      (rq : Request) (db : Database)
      → holders pid event db.call_jobs ≤ 1
      → holders pid event (step rq db).call_jobs ≤ 1
  unfolding step reap_stale_jobs
  holders-step (create now fresh_id body) db h = holders-create_event now fresh_id body db h
  holders-step (claim now k) db h = omega (arith, holders-claim_event now k db.call_jobs)
  holders-step (complete now k) db h = omega (arith, holders-complete_event now k db.call_jobs)
  holders-step (fail now k body) db h = omega (arith, holders-fail_event now body k db.call_jobs)
  holders-step (reap now) db h = omega (arith, holders-map now db.call_jobs)

  -- No sequence of requests, each carried out alone, ever gives the key of one event to two rows.
  pub holders-run-le :
      (rqs : List Request) (db : Database)
      → holders pid event db.call_jobs ≤ 1
      → holders pid event (run rqs db).call_jobs ≤ 1
  unfolding run
  holders-run-le [] db h = h
  holders-run-le (rq ∷ rqs) db h = holders-run-le rqs (step rq db) (holders-step rq db h)
