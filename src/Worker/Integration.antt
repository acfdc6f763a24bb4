-- ===== src/Worker/Integration.antt =====
-- services/integration-service/src/main.py: `process_event` behind its guard, and the client of it,
-- services/worker/src/integration_client.py.
use Prim.Native.Char.{Char, code}
use Prim.Native.String.{char_at, ◌++◌ as append}
use ai_calling_agent.Prelude.{
  ℕ, ◌/◌, ◌%◌, String, Bool, true, false, ◌&&◌, ◌||◌, Option, none, some, List, [], ◌∷◌, ◌++◌, leb,
  eqb, if◌then◌else◌,
}
use ai_calling_agent.Prelude.Text.{take_chars}
use ai_calling_agent.Json.{Fields, get_field, truthy}
use ai_calling_agent.Calls.Token.{Verdict, admitted, unauthorized, type_error}
use ai_calling_agent.Wire.{Link, delivered, unreachable, response_lost}

pub record ProcessEventRequest : Type 0 where
  pub job_id : String
  pub tenant_id : Option String
  pub call_id : Option String
  pub event_type : String
  pub payload : Option Fields

-- A character that str.strip() takes off, among those of ASCII.
unfoldable pub is_space : Char → Bool
is_space c = (leb 9 (code c) && leb (code c) 13) || (leb 28 (code c) && leb (code c) 32)

-- not s.strip()
unfoldable pub is_blank_text : String → Bool
unfolding is_space
is_blank_text String.[] = true
is_blank_text (String.◌∷◌ c s) = is_space c && is_blank_text s

-- bool(payload.get("_test_force_failure")), where the payload is a dict
unfoldable pub forces_failure : Option Fields → Bool
forces_failure none = false
forces_failure (some payload) = elim (get_field "_test_force_failure" payload) [
  | none ↦ false
  | some v ↦ truthy v
]

-- The status code of the answer: 200 where the event is processed.
unfoldable pub process_event : ProcessEventRequest → ℕ
unfolding forces_failure is_blank_text
process_event body =
    if forces_failure body.payload then 503 else if is_blank_text body.event_type then 422 else 200

-- POST /internal/v1/process: the guard, then the event. The service keeps no state but the log of what
-- it processed, here the jobs in order.
unfoldable pub process : Verdict → ProcessEventRequest → List String → ℕ × List String
unfolding process_event
process admitted body log =
    let status = process_event body in
    (status, if eqb status 200 then log ++ body.job_id ∷ [] else log)
process unauthorized body log = (401, log)
process type_error body log = (500, log)

-- The IntegrationError of the client: a transport failure, or the status code of an error response.
pub data IntegrationError : Type 0 where
  request_failed : IntegrationError
  returned : ℕ → IntegrationError

-- A status code in decimals
unfoldable pub digits : ℕ → String
digits n = String.◌∷◌ (char_at "0123456789" (n / 100)) (
    String.◌∷◌ (char_at "0123456789" (n / 10 % 10))
      (String.◌∷◌ (char_at "0123456789" (n % 10)) String.[]))

-- str(exc), where `response_text` is the text of the error response.
unfoldable pub error_text : String → IntegrationError → String
unfolding digits take_chars
error_text response_text request_failed = "integration-service request failed"
error_text response_text (returned status) =
    if leb 500 status
    then append "integration-service returned " (append (digits status) ": transient failure")
    else append "integration-service rejected the event ("
        (append (digits status) (append "): " (take_chars 500 response_text)))

unfoldable pub raise_for_code : ℕ → Option IntegrationError
raise_for_code status = if leb 400 status then some (returned status) else none

-- IntegrationClient.process: `none` is success.
unfoldable pub process_remote :
    Link → Verdict → ProcessEventRequest → List String → Option IntegrationError × List String
unfolding process raise_for_code
process_remote delivered v body log = let r = process v body log in (raise_for_code r.0, r.1)
process_remote unreachable v body log = (some request_failed, log)
process_remote response_lost v body log = (some request_failed, (process v body log).1)
