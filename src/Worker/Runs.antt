-- ===== src/Worker/Runs.antt =====
-- What the worker does to the jobs is a run of requests to the job API (services/worker/src/main.py).
use ai_calling_agent.Prelude.{
  ℕ, ◌≡◌, refl, String, true, false, Option, none, some, List, [], ◌∷◌, ◌++◌, ap, sym, ◌∙◌, Bool,
  if◌then◌else◌, leb, ◌+◌,
}
use ai_calling_agent.Models.{CallJob, Clock, Database, seconds}
use ai_calling_agent.Jobs.Schema.{EventFailRequest}
use ai_calling_agent.Jobs.Transitions.{Jobs}
use ai_calling_agent.Jobs.Machine as M
use ai_calling_agent.Jobs.Machine.{Request, step, run}
use ai_calling_agent.Jobs.Valid.{IsValidTable}
use ai_calling_agent.Jobs.Lifecycle.{run-IsValid}
use ai_calling_agent.Calls.Token.{Verdict, admitted, unauthorized, type_error}
use ai_calling_agent.Wire.{Link, delivered, unreachable, response_lost, exchange, guarded}
use ai_calling_agent.Worker.Integration.{IntegrationError}
use ai_calling_agent.Worker.Clients.{
  serve_claim, claim, serve_complete, complete, serve_fail, fail, serve_reap, reap, list_eligible,
}
use ai_calling_agent.Worker.Loop.{
  Env, World, report_failure, report_success, report, drive, after_claim, process_one, raises,
  Cycle, process_all, poll, LoopState, sweep, work, round, run_loop, reap_interval_seconds,
}

-- The database is left as by a run of requests to the job API.
abbrev pub Reachable : Database → Database → Type 0
Reachable db db' = (rqs : List Request) × (run rqs db ≡ db')

Reachable-refl : (db : Database) → Reachable db db
unfolding run
Reachable-refl db = ([], refl)

run-append : (xs ys : List Request) (db : Database) → run (xs ++ ys) db ≡ run ys (run xs db)
unfolding run
run-append [] ys db = refl
run-append (x ∷ xs) ys db = run-append xs ys (step x db)

Reachable-trans : (a b c : Database) → Reachable a b → Reachable b c → Reachable a c
Reachable-trans a b c (xs, e) (ys, f) = (xs ++ ys, run-append xs ys a ∙ ap (run ys) e ∙ f)

exchange-Reachable {ℓ} :
    {A : Type ℓ} (link : Link) (v : Verdict) (handler : Database → Option A × Database)
    (rq : Request) (db : Database)
    → (handler db).1 ≡ step rq db
    → Reachable db (exchange link v handler db).1
unfolding exchange guarded run
exchange-Reachable delivered admitted handler rq db h = (rq ∷ [], sym h)
exchange-Reachable delivered unauthorized handler rq db h = ([], refl)
exchange-Reachable delivered type_error handler rq db h = ([], refl)
exchange-Reachable unreachable v handler rq db h = ([], refl)
exchange-Reachable response_lost admitted handler rq db h = (rq ∷ [], sym h)
exchange-Reachable response_lost unauthorized handler rq db h = ([], refl)
exchange-Reachable response_lost type_error handler rq db h = ([], refl)

claim-Reachable :
    (link : Link) (v : Verdict) (now : ℕ) (id : String) (db : Database)
    → Reachable db (claim link v now id db).1
unfolding claim step
claim-Reachable link v now id db =
    exchange-Reachable link v (serve_claim now id) (M.claim now id) db refl

complete-Reachable :
    (link : Link) (v : Verdict) (now : ℕ) (id : String) (db : Database)
    → Reachable db (complete link v now id db).1
unfolding complete step
complete-Reachable link v now id db =
    exchange-Reachable link v (serve_complete now id) (M.complete now id) db refl

fail-Reachable :
    (link : Link) (v : Verdict) (now : Clock) (id : String) (body : EventFailRequest)
    (db : Database)
    → Reachable db (fail link v now id body db).1
unfolding fail step
fail-Reachable link v now id body db =
    exchange-Reachable link v (serve_fail now id body) (M.fail now id body) db refl

reap-Reachable :
    (link : Link) (v : Verdict) (now : Clock) (db : Database) → Reachable db (reap link v now db).1
unfolding reap step
reap-Reachable link v now db = exchange-Reachable link v (serve_reap now) (M.reap now) db refl

report-Reachable :
    (env : Env) (job : CallJob) (outcome : Option IntegrationError) (w : World)
    → Reachable w.db (report env job outcome w).1.db
unfolding report report_failure report_success
report-Reachable env job none w =
    complete-Reachable env.report_link env.api_verdict env.report_now.db job.job_id w.db
report-Reachable env job (some e) w =
    fail-Reachable env.report_link env.api_verdict env.report_now job.job_id _ w.db

after_claim-Reachable :
    (env : Env) (answer : Option (Option CallJob)) (w : World)
    → Reachable w.db (after_claim env answer w).1.db
unfolding after_claim drive
after_claim-Reachable env none w = Reachable-refl w.db
after_claim-Reachable env (some none) w = Reachable-refl w.db
after_claim-Reachable env (some (some job)) w = report-Reachable env job _ _

process_one-Reachable :
    (env : Env) (id : String) (w : World) → Reachable w.db (process_one env id w).1.db
unfolding process_one
process_one-Reachable env id w =
    Reachable-trans w.db _ _ (claim-Reachable env.claim_link env.api_verdict env.claim_now id w.db)
      (after_claim-Reachable env _ _)

Reachable-if :
    (b : Bool) (db : Database) (x y : World)
    → Reachable db x.db
    → Reachable db y.db
    → Reachable db (if b then x else y).db
Reachable-if true db x y h k = h
Reachable-if false db x y h k = k

process_all-Reachable :
    (c : Cycle) (jobs : Jobs) (w : World) → Reachable w.db (process_all c jobs w).db
unfolding process_all
process_all-Reachable c [] w = Reachable-refl w.db
process_all-Reachable c (job ∷ jobs) w =
    let first = process_one-Reachable (c.env job.job_id) job.job_id w in
    let w' = (process_one (c.env job.job_id) job.job_id w).1 in
    Reachable-if (c.shutdown job.job_id) w.db w _ (Reachable-refl w.db) (
      Reachable-if (raises (process_one (c.env job.job_id) job.job_id w).0) w.db w'
        (process_all c jobs w') first
        (Reachable-trans w.db w'.db _ first (process_all-Reachable c jobs w')))

poll-Reachable : (c : Cycle) (w : World) → Reachable w.db (poll c w).db
unfolding poll
poll-Reachable c w =
    go (list_eligible c.list_link c.verdict ("queued" ∷ "retrying" ∷ []) 10 c.list_now w.db)
  where
    go :
        (listed : Option Jobs)
        → Reachable w.db
            (elim listed as (λ x. World) [ none ↦ w | some jobs ↦ process_all c jobs w ]).db
    go none = Reachable-refl w.db
    go (some jobs) = process_all-Reachable c jobs w

work-Reachable : (c : Cycle) (w : World) → Reachable w.db (work c w).db
unfolding work
work-Reachable c w = go c.popped
  where
    go :
        (popped : Option String)
        → Reachable w.db
            (elim popped as (λ x. World) [
              | none ↦ poll c w
              | some id ↦ (process_one (c.env id) id w).1
            ]).db
    go none = poll-Reachable c w
    go (some id) = process_one-Reachable (c.env id) id w

sweep-Reachable : (c : Cycle) (s : LoopState) → Reachable s.world.db (sweep c s).world.db
unfolding sweep
sweep-Reachable c s = go (leb (s.last_reap + seconds reap_interval_seconds) c.now)
  where
    go :
        (due : Bool)
        → Reachable s.world.db
            (if due
              then record {
                last_reap = c.now;
                world = record s.world {
                  db = (reap c.reap_link c.verdict c.reap_now s.world.db).1;
                };
              }
              else s).world.db
    go true = reap-Reachable c.reap_link c.verdict c.reap_now s.world.db
    go false = Reachable-refl s.world.db

-- Whatever the links lose and whatever is popped, the loop leaves the database as a run of requests to
-- the job API does, each carried out whole.
pub run_loop-Reachable :
    (cs : List Cycle) (s : LoopState) → Reachable s.world.db (run_loop cs s).world.db
unfolding run_loop round
run_loop-Reachable [] s = Reachable-refl s.world.db
run_loop-Reachable (c ∷ cs) s =
    Reachable-trans s.world.db _ _ (sweep-Reachable c s) (
      Reachable-trans _ _ _ (work-Reachable c (sweep c s).world)
        (run_loop-Reachable cs (round c s)))

-- The loop keeps the table of jobs valid.
pub run_loop-IsValid :
    (cs : List Cycle) (s : LoopState)
    → IsValidTable s.world.db.call_jobs
    → IsValidTable (run_loop cs s).world.db.call_jobs
run_loop-IsValid cs s v =
    let (rqs, e) = run_loop-Reachable cs s in rw (sym e) (run-IsValid rqs s.world.db v)
