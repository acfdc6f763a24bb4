-- ===== src/Jobs/Reaping.antt =====
-- The recovery of jobs whose worker was lost (`reap_stale_jobs` of services/api/src/routers/jobs.py).
use mathlib.Core.List.{map}
use ai_calling_agent.Prelude.{
  ℕ, ◌≤◌, ◌≡◌, refl, String, true, false, ◌&&◌, some, [], ◌∷◌, ◌∙◌, arith, All, leb, ltb, select,
}
use ai_calling_agent.Prelude.Table.{get}
use ai_calling_agent.Models.{CallJob, job_key, Clock}
use ai_calling_agent.Jobs.Schema.{is_processing}
use ai_calling_agent.Jobs.Transitions.{
  Jobs, claim_event, can_claim, is_stale, reap_row, reap_stale_jobs,
}
use ai_calling_agent.Jobs.Machine.{alone, get-map_reap}
use ai_calling_agent.Jobs.Claims.{is_ok, is_ok-claim_event}

-- No row is in `processing` with an update before the time.
abbrev pub NoneStale : ℕ → Jobs → Type 0
NoneStale utc = All (λ job. is_stale utc job ≡ false)

is_stale-reap_row :
    (now : Clock) (utc : ℕ) (job : CallJob)
    → utc ≤ now.utc
    → is_stale utc (reap_row now job) ≡ false
unfolding reap_row is_processing
is_stale-reap_row now utc job h = ground arith

map-reap_row-NoneStale :
    (now : Clock) (utc : ℕ) (jobs : Jobs) → utc ≤ now.utc → NoneStale utc (map (reap_row now) jobs)
map-reap_row-NoneStale now utc [] h = tt
map-reap_row-NoneStale now utc (x ∷ jobs) h =
    (is_stale-reap_row now utc x h, map-reap_row-NoneStale now utc jobs h)

-- A sweep leaves no stale job behind: none is in `processing` with its last update more than 120
-- seconds before the sweep.
pub reap_stale_jobs-NoneStale :
    (now : Clock) (jobs : Jobs) → NoneStale now.utc (reap_stale_jobs now jobs).1
unfolding reap_stale_jobs
reap_stale_jobs-NoneStale now jobs = map-reap_row-NoneStale now now.utc jobs (omega arith)

reap_of_NoneStale :
    (now : Clock) (jobs : Jobs) → NoneStale now.utc jobs → reap_stale_jobs now jobs ≡ ([], jobs)
unfolding reap_stale_jobs select reap_row
reap_of_NoneStale now [] h = refl
reap_of_NoneStale now (x ∷ jobs) h = ground (arith, reap_of_NoneStale now jobs h.1)

-- A second sweep whose clock is not ahead of the first's reaps nothing and changes nothing.
pub reap_stale_jobs-reap_stale_jobs :
    (now now' : Clock) (jobs : Jobs)
    → now'.utc ≤ now.utc
    → reap_stale_jobs now' (reap_stale_jobs now jobs).1 ≡ ([], (reap_stale_jobs now jobs).1)
reap_stale_jobs-reap_stale_jobs now now' jobs h =
    reap_of_NoneStale now' _ (unfold reap_stale_jobs in map-reap_row-NoneStale now now'.utc jobs h)

-- A stale job is handed out again from the sweep on exactly if it has attempts left.
pub claim_event-reap_stale_jobs :
    (now : Clock) (now' : ℕ) (id : String) (jobs : Jobs) (r : CallJob)
    → get job_key id jobs ≡ some r
    → is_stale now.utc r ≡ true
    → is_ok (claim_event alone now' id (reap_stale_jobs now jobs).1).0
      ≡ (ltb r.attempts r.max_attempts && leb now.db now')
unfolding reap_stale_jobs
claim_event-reap_stale_jobs now now' id jobs r found stale =
    is_ok-claim_event now' id _ (reap_row now r) (get-map_reap id now jobs r found)
    ∙ (unfold can_claim reap_row in ground arith)
