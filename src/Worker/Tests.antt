-- ===== src/Worker/Tests.antt =====
-- The worker at concrete inputs: each theorem that has hypotheses, applied where they hold.
use ai_calling_agent.Prelude.{◌≡◌, refl, false, none, some, [], ◌∷◌, arith, true, one_of}
use ai_calling_agent.Prelude.Table.{get, put, update}
use ai_calling_agent.Models.{CallJob, job_key, queued, Clock, seconds}
use ai_calling_agent.Jobs.Schema.{is_completed, is_terminal}
use ai_calling_agent.Jobs.Transitions.{
  claimed, can_claim, claim_event, complete_event, done_at, is_stale, reap_stale_jobs,
}
use ai_calling_agent.Jobs.Valid.{IsValid}
use ai_calling_agent.Calls.Token.{admitted}
use ai_calling_agent.Wire.{delivered, unreachable, exchange, guarded}
use ai_calling_agent.Worker.Integration.{process_event, process_remote}
use ai_calling_agent.Worker.Clients.{claim, complete, reap}
use ai_calling_agent.Worker.Loop.{
  Env, World, Cycle, LoopState, complete_unreported, request_of, process_one, run_loop,
}
use ai_calling_agent.Worker.Earned.{run_loop-completed}
use ai_calling_agent.Worker.Deliveries.{swept, process_one-process_one}
use ai_calling_agent.Worker.Acks.{process_one-completed}

abbrev waiting : CallJob
waiting = record {
  job_id = "job-1";
  tenant_id = none;
  call_id = none;
  provider_call_id = some "exo-1";
  event_type = "answered";
  payload = none;
  status = queued;
  attempts = 0;
  max_attempts = 5;
  last_error = none;
  created_at = 10;
  updated_at = 10;
  available_at = 10;
  processed_at = none;
}

abbrev world : World
world = record {
  db = record { call_jobs = waiting ∷ []; calls = []; phone_number_routes = [] };
  processed = [];
}

abbrev env : Env
env = record {
  claim_link = delivered;
  integration_link = delivered;
  report_link = delivered;
  api_verdict = admitted;
  integration_verdict = admitted;
  claim_now = 20;
  report_now = record { utc = 30; db = 30 };
  response_text = "";
}

abbrev cut_off : Env
cut_off = record env { report_link = unreachable }

abbrev retry : Env
retry = record env { claim_now = seconds 400 }

abbrev sweep_clock : Clock
sweep_clock = record { utc = seconds 300; db = seconds 300 }

waiting-IsValid : IsValid waiting
unfolding is_terminal
waiting-IsValid = ground arith

process_one-completed_example : (process_one env "job-1" world).1.processed ≡ "job-1" ∷ []
unfolding process_one claim exchange guarded claim_event get put update can_claim process_event
    process_remote request_of complete complete_event is_completed is_terminal
process_one-completed_example =
    process_one-completed env "job-1" world waiting (done_at 30 (claimed 20 waiting)) refl refl refl
      refl

process_one-process_one_example :
    ((process_one cut_off "job-1" world).0 ≡ complete_unreported)
    × (get job_key "job-1" (process_one cut_off "job-1" world).1.db.call_jobs
        ≡ some (claimed 20 waiting))
    × ((process_one retry "job-1"
          (swept sweep_clock (process_one cut_off "job-1" world).1)).1.processed
        ≡ "job-1" ∷ "job-1" ∷ [])
unfolding get can_claim process_event request_of is_stale claimed
process_one-process_one_example =
    process_one-process_one cut_off retry sweep_clock "job-1" world waiting
      (record { claims = refl; api = refl; integrates = refl; service = refl })
      (record { claims = refl; api = refl; integrates = refl; service = refl }) refl refl refl refl
      refl refl refl

abbrev cycle : Cycle
cycle = record {
  now = seconds 300;
  verdict = admitted;
  reap_link = delivered;
  reap_now = sweep_clock;
  popped = some "job-1";
  list_link = delivered;
  list_now = seconds 300;
  env = λ id. env;
  shutdown = λ id. false;
}

abbrev started : LoopState
started = record { last_reap = 0; world = world }

run_loop-completed_example : one_of "job-1" (run_loop (cycle ∷ []) started).world.processed ≡ true
unfolding run_loop process_one claim exchange guarded claim_event get put update can_claim
    process_event process_remote request_of complete complete_event is_completed is_terminal reap
    reap_stale_jobs
run_loop-completed_example =
    run_loop-completed (cycle ∷ []) started "job-1" waiting (done_at 30 (claimed 20 waiting)) refl
      refl refl refl
