-- ===== src/Jobs/Claims.antt =====
-- How often and by whom a job can be claimed (`claim_event` of services/api/src/routers/jobs.py).
use ai_calling_agent.Prelude.{
  ℕ, ◌+◌, ◌≤◌, ◌≡◌, refl, String, Bool, true, false, not, ◌&&◌, ◌==◌, ap, ◌∙◌, some, List, [], ◌∷◌,
  inl, inr, arith, All, Option-cases, Bool-cases, eq_iff, if◌then◌else◌,
}
use ai_calling_agent.Prelude.Table.{
  get, update_of_guard, update_of_missing, key-get, get-put_self, put,
}
use ai_calling_agent.Models.{processing, CallJob, job_key, Database}
use ai_calling_agent.Jobs.Schema.{is_claimable, Reply, ok, raised, not_claimable}
use ai_calling_agent.Jobs.Transitions.{
  Jobs, Others, claim_event, claim_refusal, can_claim, claimed, done_at, failed_row, reap_row,
}
use ai_calling_agent.Jobs.Valid.{
  IsValid, claimed-IsValid, done_at-IsValid, failed_row-IsValid, reap_row-IsValid,
}
use ai_calling_agent.Jobs.Machine.{
  Request, create, claim, complete, fail, reap, alone, step, run, row_after, get-step,
}

abbrev pub is_ok {ℓ} : {A : Type ℓ} → Reply A → Bool
is_ok (ok _) = true
is_ok (raised _) = false

-- The request is a claim of job `j` that succeeds.
unfoldable pub wins : String → Request → Database → Bool
wins j (claim now id) db = id == j && is_ok (claim_event alone now id db.call_jobs).0
wins j _ db = false

-- How many requests of the sequence claim job `j` with success.
unfoldable pub claims_won : String → List Request → Database → ℕ
claims_won j [] db = 0
claims_won j (rq ∷ rqs) db =
    let rest = claims_won j rqs (step rq db) in if wins j rq db then 1 + rest else rest

pub claim_event_of_found :
    (later : Others) (now : ℕ) (id : String) (jobs : Jobs) (r : CallJob)
    → get job_key id jobs ≡ some r
    → claim_event later now id jobs ≡ (
        if can_claim now r
        then (ok (claimed now r), put job_key id (claimed now r) jobs)
        else (claim_refusal (get job_key id (later jobs)), later jobs))
unfolding claim_event
claim_event_of_found later now id jobs r found =
    rw (update_of_guard job_key id (can_claim now) (claimed now) jobs r found, claim_event)
      (ground arith)

pub is_ok-claim_event :
    (now : ℕ) (id : String) (jobs : Jobs) (r : CallJob)
    → get job_key id jobs ≡ some r
    → is_ok (claim_event alone now id jobs).0 ≡ can_claim now r
unfolding claim_refusal
is_ok-claim_event now id jobs r found =
    rw (claim_event_of_found alone now id jobs r found, found) (ground arith)

wins-claim :
    (j : String) (now : ℕ) (id : String) (db : Database) (r : CallJob)
    → get job_key j db.call_jobs ≡ some r
    → wins j (claim now id) db ≡ (id == j && can_claim now r)
unfolding wins
wins-claim j now id db r found = elim (Bool-cases (id == j)) [
  | inl e ↦ ground (arith, is_ok-claim_event now id db.call_jobs r, eq_iff id j)
  | inr e ↦ ground arith
]

-- A successful claim uses up one attempt, and no request gives one back.
attempts_step :
    (rq : Request) (j : String) (db : Database) (r : CallJob)
    → get job_key j db.call_jobs ≡ some r
    → (if wins j rq db then 1 + r.attempts else r.attempts) ≤ (row_after rq j r).attempts
unfolding wins row_after claimed done_at failed_row reap_row
attempts_step (claim now id) j db r found = rw (wins-claim j now id db r found) (ground arith)
attempts_step rq j db r found = ground arith

max_attempts_step :
    (rq : Request) (j : String) (r : CallJob) → (row_after rq j r).max_attempts ≡ r.max_attempts
unfolding row_after claimed done_at failed_row reap_row
max_attempts_step rq j r = ground arith

row_after-IsValid :
    (rq : Request) (j : String) (r : CallJob) → IsValid r → IsValid (row_after rq j r)
unfolding row_after
row_after-IsValid (create now fresh_id body) j r v = v
row_after-IsValid (claim now id) j r v = ground (arith, claimed-IsValid now r)
row_after-IsValid (complete now id) j r v = ground (arith, done_at-IsValid now r)
row_after-IsValid (fail now id body) j r v = ground (arith, failed_row-IsValid now body r r)
row_after-IsValid (reap now) j r v = reap_row-IsValid now r v

-- Where each request is carried out alone, a valid job of the table is claimed at most as often as it has
-- attempts left, whatever requests arrive in whatever order.
pub claims_won-le :
    (rqs : List Request) (j : String) (db : Database) (r : CallJob)
    → get job_key j db.call_jobs ≡ some r
    → IsValid r
    → claims_won j rqs db + r.attempts ≤ r.max_attempts
unfolding claims_won
claims_won-le [] j db r found v = omega (arith, v.bounded)
claims_won-le (rq ∷ rqs) j db r found v = ground (
  arith,
  attempts_step rq j db r,
  max_attempts_step rq j r,
  claims_won-le rqs j (step rq db) (row_after rq j r) (get-step rq j db r found)
      (row_after-IsValid rq j r v),
)

-- The requests that cannot take a job from the worker that holds it.
unfoldable pub leaves_lease : Request → Bool
leaves_lease (fail now id body) = false
leaves_lease (reap now) = false
leaves_lease _ = true

row_after-claimable :
    (rq : Request) (j : String) (r : CallJob)
    → leaves_lease rq ≡ true
    → is_claimable r.status ≡ false
    → is_claimable (row_after rq j r).status ≡ false
unfolding row_after leaves_lease is_claimable claimed done_at
row_after-claimable rq j r l c = ground arith

wins_of_held :
    (rq : Request) (j : String) (db : Database) (r : CallJob)
    → get job_key j db.call_jobs ≡ some r
    → is_claimable r.status ≡ false
    → wins j rq db ≡ false
unfolding wins can_claim
wins_of_held (claim now id) j db r found c = rw (wins-claim j now id db r found) (ground arith)
wins_of_held rq j db r found c = ground arith

-- A job that is not claimable, such as one that a worker has claimed, is claimed by nobody in any
-- sequence of requests, each carried out alone, without a failure report and without a reap.
pub claims_won_of_lease :
    (rqs : List Request) (j : String) (db : Database) (r : CallJob)
    → get job_key j db.call_jobs ≡ some r
    → is_claimable r.status ≡ false
    → All (λ rq. leaves_lease rq ≡ true) rqs
    → claims_won j rqs db ≡ 0
unfolding claims_won
claims_won_of_lease [] j db r found c h = refl
claims_won_of_lease (rq ∷ rqs) j db r found c h = ground (
  arith,
  wins_of_held rq j db r found c,
  claims_won_of_lease rqs j (step rq db) (row_after rq j r) (get-step rq j db r found)
      (row_after-claimable rq j r h.0 c) h.1,
)

pub claim_event-eq-ok :
    (later : Others) (now : ℕ) (id : String) (jobs jobs' : Jobs) (job : CallJob)
    → claim_event later now id jobs ≡ (ok job, jobs')
    → (r : CallJob) × (get job_key id jobs ≡ some r)
      × (can_claim now r ≡ true)
      × (job ≡ claimed now r)
      × (jobs' ≡ put job_key id (claimed now r) jobs)
unfolding claim_event claim_refusal
claim_event-eq-ok later now id jobs jobs' job e = elim (Option-cases (get job_key id jobs)) [
  | inl missing ↦
      ground (arith, update_of_missing job_key id (can_claim now) (claimed now) jobs missing)
  | inr (r, found) ↦
      let eqs = update_of_guard job_key id (can_claim now) (claimed now) jobs r found in
      (r, found, ground arith, ground arith, ground arith)
]

-- The requests that leave a job of key `j` to the worker that holds it: all but reports of it and sweeps.
abbrev pub leaves_held : String → Request → Bool
leaves_held j (complete now id) = not (id == j)
leaves_held j (fail now id body) = not (id == j)
leaves_held j (reap now) = false
leaves_held j _ = true

row_after_of_held :
    (rq : Request) (j : String) (r : CallJob)
    → leaves_held j rq ≡ true
    → r.status ≡ processing
    → row_after rq j r ≡ r
unfolding row_after can_claim
row_after_of_held rq j r l busy = ground arith

get-run_of_held :
    (rqs : List Request) (j : String) (db : Database) (r : CallJob)
    → get job_key j db.call_jobs ≡ some r
    → r.status ≡ processing
    → All (λ rq. leaves_held j rq ≡ true) rqs
    → get job_key j (run rqs db).call_jobs ≡ some r
unfolding run
get-run_of_held [] j db r found busy h = found
get-run_of_held (rq ∷ rqs) j db r found busy h =
    get-run_of_held rqs j (step rq db) r
      (get-step rq j db r found ∙ ap some (row_after_of_held rq j r h.0 busy)) busy h.1

claim_event_of_held :
    (now : ℕ) (id : String) (jobs : Jobs) (r : CallJob)
    → get job_key id jobs ≡ some r
    → r.status ≡ processing
    → claim_event alone now id jobs ≡ (raised (not_claimable processing), jobs)
unfolding can_claim claim_refusal
claim_event_of_held now id jobs r found busy =
    rw (claim_event_of_found alone now id jobs r found, found) (ground arith)

-- A claim that succeeds keeps the job from every other worker until it is reported or a sweep runs: after
-- the claim, whatever other transactions commit around its statements, and after any sequence of requests,
-- each carried out alone, without a completion or failure report of the job and without a sweep, a claim
-- of the job, carried out alone, is answered 409 with the status `processing` and changes nothing, at
-- whatever time it arrives.
pub claim_event-claim_event :
    (later : Others) (now now' : ℕ) (id : String) (jobs : Jobs) (job : CallJob) (db : Database)
    (rqs : List Request)
    → claim_event later now id jobs ≡ (ok job, db.call_jobs)
    → All (λ rq. leaves_held id rq ≡ true) rqs
    → claim_event alone now' id (run rqs db).call_jobs
      ≡ (raised (not_claimable processing), (run rqs db).call_jobs)
claim_event-claim_event later now now' id jobs job db rqs e h =
    let (r, found, can, _, left) = claim_event-eq-ok later now id jobs db.call_jobs job e in
    let held : get job_key id db.call_jobs ≡ some (claimed now r) = rw left (
      unfold claimed in
      get-put_self job_key id (claimed now r) jobs r (key-get job_key id jobs r found) found) in
    let busy : (claimed now r).status ≡ processing = unfold claimed in refl in
    claim_event_of_held now' id (run rqs db).call_jobs (claimed now r)
      (get-run_of_held rqs id db (claimed now r) held busy h) busy
