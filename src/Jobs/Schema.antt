-- ===== src/Jobs/Schema.antt =====
-- services/api/src/routers/jobs.py: the constants, the requests, the errors and the wake-up queue.
use Prim.Native.String.{count, ◌++◌ as append}
use ai_calling_agent.Prelude.{
  ℕ, ◌-◌, ◌*◌, ◌^◌, min, max, String, Bool, true, false, ◌&&◌, Option, none, some, List, [], ◌∷◌,
  ◌++◌, leb, if◌then◌else◌,
}
use ai_calling_agent.Prelude.Text.{take_chars}
use ai_calling_agent.Json.{Fields}
use ai_calling_agent.Models.{JobStatus, queued, processing, completed, failed, retrying}

-- _MAX_ERROR_CHARS
abbrev pub max_error_chars : ℕ
max_error_chars = 2000

-- _STALE_PROCESSING_SECONDS
abbrev pub stale_processing_seconds : ℕ
stale_processing_seconds = 120

-- _BASE_BACKOFF_SECONDS
abbrev pub base_backoff_seconds : ℕ
base_backoff_seconds = 5

-- _MAX_BACKOFF_SECONDS
abbrev pub max_backoff_seconds : ℕ
max_backoff_seconds = 300

-- status in _TERMINAL_STATUSES
unfoldable pub is_terminal : JobStatus → Bool
is_terminal completed = true
is_terminal failed = true
is_terminal _ = false

-- status in _CLAIMABLE_STATUSES
unfoldable pub is_claimable : JobStatus → Bool
is_claimable queued = true
is_claimable retrying = true
is_claimable _ = false

unfoldable pub is_processing : JobStatus → Bool
is_processing processing = true
is_processing _ = false

unfoldable pub is_completed : JobStatus → Bool
is_completed completed = true
is_completed _ = false

-- `max(attempts - 1, 0)` is the truncated difference.
unfoldable pub backoff_seconds : ℕ → ℕ
backoff_seconds attempts = min (base_backoff_seconds * 2 ^ max (attempts - 1) 0) max_backoff_seconds

unfoldable pub truncate_error : String → String
truncate_error error =
    if leb (count error) max_error_chars
    then error
    else append (take_chars max_error_chars error) "...(truncated)"

pub record EventCreateRequest : Type 0 where
  pub event_type : String
  pub provider_call_id : Option String
  pub tenant_id : Option String
  pub call_id : Option String
  pub payload : Option Fields
  pub max_attempts : Option ℕ

-- The bounds that the request schema puts on `max_attempts`.
unfoldable pub max_attempts_in_range : Option ℕ → Bool
max_attempts_in_range none = true
max_attempts_in_range (some n) = leb 1 n && leb n 20

-- The `Field` constraints: the event type has 1 to 50 characters, the attempts are 1 to 20.
unfoldable pub is_valid_create : EventCreateRequest → Bool
unfolding max_attempts_in_range
is_valid_create body =
    leb 1 (count body.event_type)
    && leb (count body.event_type) 50
    && max_attempts_in_range body.max_attempts

pub record EventFailRequest : Type 0 where
  pub error : String
  pub retry : Bool

-- `error` has at least one character.
unfoldable pub is_valid_fail : EventFailRequest → Bool
is_valid_fail body = leb 1 (count body.error)

-- The error responses of the router: the HTTP errors that it raises, the validation error of the
-- framework, and an exception that leaves the handler.
pub data JobsError : Type 0 where
  job_not_found : JobsError
  not_claimable : JobStatus → JobsError
  cannot_complete : JobStatus → JobsError
  cannot_fail : JobStatus → JobsError
  changed_concurrently : JobsError
  unprocessable : JobsError
  integrity_error : JobsError
  data_error : JobsError

unfoldable pub status_code : JobsError → ℕ
status_code job_not_found = 404
status_code (not_claimable s) = 409
status_code (cannot_complete s) = 409
status_code (cannot_fail s) = 409
status_code changed_concurrently = 409
status_code unprocessable = 422
status_code integrity_error = 500
status_code data_error = 500

pub data Reply {ℓ} (A : Type ℓ) : Type ℓ where
  ok : A → Reply A
  raised : JobsError → Reply A

-- The Redis list that wakes the worker: `none` where no client is configured.
pub record Queue : Type 0 where
  pub reachable : Bool
  pub items : List String

-- A push that fails is logged and changes nothing.
unfoldable pub notify_worker : String → Option Queue → Option Queue
notify_worker job_id none = none
notify_worker job_id (some q) =
    some (if q.reachable then record q { items = q.items ++ job_id ∷ [] } else q)
