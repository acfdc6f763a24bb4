-- ===== src/Models.antt =====
-- The rows of services/api/src/models.py that the call lifecycle writes. Times are microseconds since
-- the epoch. A status column with a CHECK constraint is the enumeration of its allowed values.
use ai_calling_agent.Prelude.{ℕ, ◌*◌, String, Bool, Option, List}
use ai_calling_agent.Json.{Fields}

-- call_jobs.status
pub data JobStatus : Type 0 where
  queued processing completed failed retrying : JobStatus

-- The stored text of a job's status.
unfoldable pub job_status_text : JobStatus → String
job_status_text queued = "queued"
job_status_text processing = "processing"
job_status_text completed = "completed"
job_status_text failed = "failed"
job_status_text retrying = "retrying"

pub record CallJob : Type 0 where
  pub job_id : String
  pub tenant_id : Option String
  pub call_id : Option String
  pub provider_call_id : Option String
  pub event_type : String
  pub payload : Option Fields
  pub status : JobStatus
  pub attempts : ℕ
  pub max_attempts : ℕ
  pub last_error : Option String
  pub created_at : ℕ
  pub updated_at : ℕ
  pub available_at : ℕ
  pub processed_at : Option ℕ

abbrev pub job_key : CallJob → String
job_key j = j.job_id

-- calls.status
pub data CallStatus : Type 0 where
  active completed failed no_answer voicemail cancelled : CallStatus

-- calls.connection_status
pub data ConnectionStatus : Type 0 where
  not_attempted attempted connected failed_pre_connect : ConnectionStatus

pub record Call : Type 0 where
  pub call_id : String
  pub tenant_id : String
  pub agent_id : String
  pub provider_call_id : Option String
  pub status : CallStatus
  pub started_at : ℕ
  pub ended_at : Option ℕ
  pub end_reason : Option String
  pub created_at : ℕ
  pub is_simulation : Bool
  pub connection_status : ConnectionStatus
  pub call_request_id : Option ℕ

abbrev pub call_key : Call → String
call_key c = c.call_id

pub record PhoneNumberRoute : Type 0 where
  pub number : String
  pub tenant_id : String
  pub agent_id : String
  pub provider : Option String
  pub created_at : ℕ

abbrev pub route_key : PhoneNumberRoute → String
route_key r = r.number

-- The tables, each keyed by its primary key.
pub record Database : Type 0 where
  pub call_jobs : List CallJob
  pub calls : List Call
  pub phone_number_routes : List PhoneNumberRoute

-- The two clocks of a request: `datetime.now(UTC)` in Python, and `now()` in the database, which
-- is one value throughout a transaction.
pub record Clock : Type 0 where
  pub utc : ℕ
  pub db : ℕ

abbrev pub seconds : ℕ → ℕ
seconds n = n * 1_000_000
