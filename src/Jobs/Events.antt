-- ===== src/Jobs/Events.antt =====
-- The idempotency of event recording: the key (provider_call_id, event_type) in the table of
-- services/api/src/routers/jobs.py.
use mathlib.Core.List.{map}
use ai_calling_agent.Prelude.{
  ◌≡◌, refl, String, Bool, true, false, Option, none, some, [], ◌∷◌, ◌++◌, inl, inr, arith,
  Option-cases,
}
use ai_calling_agent.Prelude.Table.{get, update, after, put, update_of_missing, update_of_guard}
use ai_calling_agent.Models.{CallJob, job_key, Database, Clock}
use ai_calling_agent.Jobs.Schema.{integrity_error}
use ai_calling_agent.Jobs.Create.{
  has_event, find_event, job_fits, insert_job, event_taken, inserted, refused,
}
use ai_calling_agent.Jobs.Transitions.{Jobs, reap_row}

-- The id of the row that holds the key of an event.
unfoldable pub event_id : String → String → Jobs → Option String
event_id pid event jobs = elim (find_event pid event jobs) [
  | none ↦ none
  | some job ↦ some job.job_id
]

-- The two rows agree on what the key and the id read.
abbrev pub SameEvent : CallJob → CallJob → Type 0
SameEvent v r =
    (v.job_id ≡ r.job_id)
    × (v.provider_call_id ≡ r.provider_call_id)
    × (v.event_type ≡ r.event_type)

pub has_event-SameEvent :
    (pid event : String) (v r : CallJob)
    → SameEvent v r
    → has_event pid event v ≡ has_event pid event r
unfolding has_event
has_event-SameEvent pid event v r h = ground arith

module _ (pid event : String) where
  pub event_id-put :
      (k : String) (v : CallJob) (jobs : Jobs) (r : CallJob)
      → SameEvent v r
      → get job_key k jobs ≡ some r
      → event_id pid event (put job_key k v jobs) ≡ event_id pid event jobs
  unfolding event_id find_event get put
  event_id-put k v [] r h found = refl
  event_id-put k v (x ∷ jobs) r h found =
      ground (arith, event_id-put k v jobs r h, has_event-SameEvent pid event v r h)

  pub event_id-after :
      (k : String) (guard : CallJob → Bool) (f : CallJob → CallJob) (jobs : Jobs)
      → ((x : CallJob) → SameEvent (f x) x)
      → event_id pid event (after job_key (update job_key k guard f jobs) jobs)
        ≡ event_id pid event jobs
  event_id-after k guard f jobs same = elim (Option-cases (get job_key k jobs)) [
    | inl missing ↦ rw (update_of_missing job_key k guard f jobs missing)
    | inr (r, found) ↦
        rw (update_of_guard job_key k guard f jobs r found)
          (ground (arith, event_id-put k (f r) jobs r (same r) found))
  ]

  pub event_id-map :
      (now : Clock) (jobs : Jobs)
      → event_id pid event (map (reap_row now) jobs) ≡ event_id pid event jobs
  unfolding event_id find_event reap_row has_event
  event_id-map now [] = refl
  event_id-map now (x ∷ jobs) = ground (arith, event_id-map now jobs)

  pub event_id-append :
      (jobs : Jobs) (x : CallJob) (id : String)
      → event_id pid event jobs ≡ some id
      → event_id pid event (jobs ++ x ∷ []) ≡ some id
  unfolding event_id find_event
  event_id-append [] x id e = ground arith
  event_id-append (y ∷ jobs) x id e = ground (arith, event_id-append jobs x id)

  pub event_id-append_new :
      (jobs : Jobs) (x : CallJob)
      → find_event pid event jobs ≡ none
      → has_event pid event x ≡ true
      → event_id pid event (jobs ++ x ∷ []) ≡ some x.job_id
  unfolding event_id find_event
  event_id-append_new [] x e h = ground arith
  event_id-append_new (y ∷ jobs) x e h = ground (arith, event_id-append_new jobs x)

-- The unique index refuses a row whose key is held.
pub insert_job_of_taken :
    (job : CallJob) (db : Database)
    → job_fits job ≡ true
    → event_taken job.provider_call_id job.event_type db.call_jobs ≡ true
    → insert_job job db ≡ refused integrity_error
unfolding insert_job
insert_job_of_taken job db wide taken = rw (wide, taken) (ground arith)

-- A row is inserted only with a key that is free.
pub insert_job-inserted :
    (job : CallJob) (db db' : Database)
    → insert_job job db ≡ inserted db'
    → (db'.call_jobs ≡ db.call_jobs ++ job ∷ [])
      × (event_taken job.provider_call_id job.event_type db.call_jobs ≡ false)
unfolding insert_job
insert_job-inserted job db db' e = ground arith
