-- ===== src/Jobs/Valid.antt =====
-- The invariant of a row of `call_jobs`, and that each operation of the job API keeps it.
use mathlib.Core.List.{map}
use ai_calling_agent.Prelude.{
  ℕ, ◌≤◌, ◌<◌, ◌≡◌, ◌≢◌, String, true, some, [], ◌∷◌, inl, inr, arith, All, All-append,
  Option-cases, is_some,
}
use ai_calling_agent.Prelude.Table.{get, update, update-All}
use ai_calling_agent.Models.{queued, retrying, CallJob, job_key, Database, Clock}
use ai_calling_agent.Jobs.Schema.{
  is_terminal, is_processing, EventCreateRequest, EventFailRequest, is_valid_create,
}
use ai_calling_agent.Jobs.Create.{new_job, insert_job, inserted}
use ai_calling_agent.Jobs.Transitions.{
  Jobs, Others, can_claim, claimed, claim_event, done_at, complete_update, complete_event,
  failed_row, fail_update, fail_event, reap_row, reap_stale_jobs,
}

-- Attempts never pass their bound, a job waiting for a retry has attempts left, and a job is
-- processed exactly if it is terminal.
pub record IsValid (job : CallJob) : Type 0 where
  pub allowed : 1 ≤ job.max_attempts
  pub bounded : job.attempts ≤ job.max_attempts
  pub fresh : job.status ≡ queued → job.attempts ≡ 0
  pub retry_left : job.status ≡ retrying → job.attempts < job.max_attempts
  pub started : job.status ≢ queued → 1 ≤ job.attempts
  pub settled : is_some job.processed_at ≡ is_terminal job.status

abbrev pub IsValidTable : Jobs → Type 0
IsValidTable = All IsValid

pub claimed-IsValid :
    (now : ℕ) (job : CallJob) → can_claim now job ≡ true → IsValid job → IsValid (claimed now job)
unfolding can_claim claimed is_terminal
claimed-IsValid now job c v = ground arith

pub done_at-IsValid :
    (now : ℕ) (job : CallJob)
    → is_processing job.status ≡ true
    → IsValid job
    → IsValid (done_at now job)
unfolding done_at is_processing is_terminal
done_at-IsValid now job p v = ground arith

-- The failure report is judged by the attempts of `existing`, the row read before.
pub failed_row-IsValid :
    (now : Clock) (body : EventFailRequest) (existing job : CallJob)
    → is_processing job.status ≡ true
    → existing.attempts ≡ job.attempts
    → existing.max_attempts ≡ job.max_attempts
    → IsValid job
    → IsValid (failed_row now body existing job)
unfolding failed_row is_processing is_terminal
failed_row-IsValid now body existing job p a m v = ground arith

pub reap_row-IsValid : (now : Clock) (job : CallJob) → IsValid job → IsValid (reap_row now job)
unfolding reap_row is_processing is_terminal
reap_row-IsValid now job v = ground arith

pub new_job-IsValid :
    (now : ℕ) (id : String) (body : EventCreateRequest)
    → is_valid_create body ≡ true
    → IsValid (new_job now id body)
unfolding new_job is_valid_create is_terminal
new_job-IsValid now id body h = ground arith

module _ (jobs : Jobs) (v : IsValidTable jobs) where
  pub claim_event-IsValid :
      (later : Others) (now : ℕ) (id : String)
      → IsValidTable (later jobs)
      → IsValidTable (claim_event later now id jobs).1
  unfolding claim_event
  claim_event-IsValid later now id w =
      elim (Option-cases (update job_key id (can_claim now) (claimed now) jobs)) [
        | inl e ↦ ground arith
        | inr ((job, jobs'), e) ↦
            rw (e, claim_event)
              (update-All job_key IsValid id (can_claim now) (claimed now) jobs job jobs'
                (λ r _ g. claimed-IsValid now r g) v e).1
      ]

  pub complete_update-IsValid :
      (later : Others) (now : ℕ) (id : String)
      → IsValidTable (later jobs)
      → IsValidTable (complete_update later now id jobs).1
  unfolding complete_update
  complete_update-IsValid later now id w =
      elim (Option-cases (update job_key id (λ job. is_processing job.status) (done_at now) jobs)) [
        | inl e ↦ ground arith
        | inr ((job, jobs'), e) ↦
            rw (e, complete_update)
              (update-All job_key IsValid id (λ r. is_processing r.status) (done_at now) jobs job
                jobs' (λ r _ g. done_at-IsValid now r g) v e).1
      ]

  -- The row that the failure report was judged by has the attempts of the row that it writes.
  pub fail_update-IsValid :
      (now : Clock) (body : EventFailRequest) (existing : CallJob) (id : String)
      → ((r : CallJob)
          → get job_key id jobs ≡ some r
          → (existing.attempts ≡ r.attempts) × (existing.max_attempts ≡ r.max_attempts))
      → IsValidTable (fail_update now body existing id jobs).1
  unfolding fail_update
  fail_update-IsValid now body existing id same =
      elim (Option-cases
        (update job_key id (λ job. is_processing job.status) (failed_row now body existing) jobs)) [
          | inl e ↦ ground arith
          | inr ((job, jobs'), e) ↦
              rw (e, fail_update)
                (update-All job_key IsValid id (λ r. is_processing r.status)
                  (failed_row now body existing) jobs job jobs'
                  (λ r found g.
                    failed_row-IsValid now body existing r g (same r found).0 (same r found).1)
                  v e).1
        ]

  pub reap_stale_jobs-IsValid : (now : Clock) → IsValidTable (reap_stale_jobs now jobs).1
  unfolding reap_stale_jobs
  reap_stale_jobs-IsValid now = go jobs v
    where
      go : (t : Jobs) → IsValidTable t → IsValidTable (map (reap_row now) t)
      go [] h = tt
      go (x ∷ t) h = (reap_row-IsValid now x h.0, go t h.1)

-- Whatever other transactions commit around its statements, a completion keeps a valid table valid.
pub complete_event-IsValid :
    (meanwhile later : Others) (now : ℕ) (id : String) (jobs : Jobs)
    → IsValidTable jobs
    → IsValidTable (meanwhile jobs)
    → IsValidTable (later (meanwhile jobs))
    → IsValidTable (complete_event meanwhile later now id jobs).1
unfolding complete_event
complete_event-IsValid meanwhile later now id jobs v w u =
    ground (arith, complete_update-IsValid (meanwhile jobs) w later now id u)

-- A failure report keeps a valid table valid where other transactions leave its row's attempts
-- alone between its SELECT and its UPDATE.
pub fail_event-IsValid :
    (meanwhile : Others) (now : Clock) (id : String) (body : EventFailRequest) (jobs : Jobs)
    → IsValidTable jobs
    → IsValidTable (meanwhile jobs)
    → ((e r : CallJob)
        → get job_key id jobs ≡ some e
        → get job_key id (meanwhile jobs) ≡ some r
        → (e.attempts ≡ r.attempts) × (e.max_attempts ≡ r.max_attempts))
    → IsValidTable (fail_event meanwhile now id body jobs).1
unfolding fail_event
fail_event-IsValid meanwhile now id body jobs v w same = elim (Option-cases (get job_key id jobs)) [
  | inl e ↦ ground arith
  | inr (existing, e) ↦
      ground (
        arith,
        fail_update-IsValid (meanwhile jobs) w now body existing id (λ r. same existing r e),
      )
]

pub insert_job-IsValid :
    (job : CallJob) (db db' : Database)
    → IsValid job
    → IsValidTable db.call_jobs
    → insert_job job db ≡ inserted db'
    → IsValidTable db'.call_jobs
unfolding insert_job
insert_job-IsValid job db db' p v e =
    ground (arith, All-append IsValid db.call_jobs (job ∷ []) v (p, tt))
