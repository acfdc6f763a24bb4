-- ===== src/Gateway/Payload.antt =====
-- services/voice-gateway/exotel_routes.py: from the HTTP request to an ExotelCallback. The framework
-- has decoded the request: a Request holds what the handler reads of it.
use ai_calling_agent.Prelude.{
  String, Bool, true, false, ◌==◌, Option, none, some, [], ◌∷◌, if◌then◌else◌, ◌>>=◌,
}
use ai_calling_agent.Prelude.Dict.{Dict, lookup, insert, remove}
use ai_calling_agent.Json.{Json, null, text, Fields, end, field, truthy}
use ai_calling_agent.Calls.Token.{Verdict, unauthorized, digest_verdict, compare_digest}

-- The body of a POST by its content type; a GET has `no_body`. `malformed` is JSON that
-- request.json() refuses with a ValueError.
pub data Body : Type 0 where
  no_body malformed other_json : Body
  form : Dict String → Body
  json_object : Fields → Body

pub record HttpRequest : Type 0 where
  pub token_header : Option String
  pub query : Dict String
  pub body : Body

pub record ExotelCallback : Type 0 where
  pub provider_call_id : String
  pub event : String
  pub dialed_number : Option String
  pub call_status : Option String

-- `a or b` on texts that may be missing
unfoldable pub or_text : Option String → Option String → Option String
or_text none b = b
or_text (some a) b = if a == "" then b else some a

unfoldable pub check_token : String → Option String → Verdict
check_token secret none = unauthorized
check_token secret (some token) =
    if token == "" then unauthorized else digest_verdict (compare_digest token secret)

-- The check at the head of `callback`, against settings.webhook_token.
unfoldable pub authenticate : String → HttpRequest → Verdict
unfolding or_text check_token
authenticate secret request =
    check_token secret (or_text request.token_header (lookup "token" request.query))

-- v in (None, "")
unfoldable pub is_blank : Json → Bool
is_blank null = true
is_blank (text s) = s == ""
is_blank _ = false

-- dict(request.query_params), as JSON values
unfoldable pub texts : Dict String → Dict Json
texts [] = []
texts ((k, s) ∷ d) = (k, text s) ∷ texts d

-- raw.update({k: v for k, v in body.items() if v not in (None, "")})
unfoldable pub merge : Fields → Dict Json → Dict Json
merge end raw = raw
merge (field k v fs) raw = merge fs (if is_blank v then raw else insert k v raw)

unfoldable pub form_fields : Dict String → Fields
form_fields [] = end
form_fields ((k, s) ∷ d) = field k (text s) (form_fields d)

-- The merged parameters; `none` is the ValueError of a malformed body.
unfoldable pub raw_fields : HttpRequest → Option (Dict Json)
unfolding texts merge form_fields
raw_fields request =
    let raw = remove "token" (texts request.query) in
    elim request.body [
      | no_body ↦ some raw
      | malformed ↦ none
      | other_json ↦ some raw
      | form d ↦ some (merge (form_fields d) raw)
      | json_object fs ↦ some (merge fs raw)
    ]

unfoldable pub is_truthy : Option Json → Bool
is_truthy none = false
is_truthy (some v) = truthy v

-- `a or b` on values that may be missing
unfoldable pub or_value : Option Json → Option Json → Option Json
unfolding is_truthy
or_value a b = if is_truthy a then a else b

-- A required text of at least one character.
unfoldable pub required_text : Option Json → Option String
required_text (some (text s)) = if s == "" then none else some s
required_text _ = none

-- A text that may be missing; the outer `none` is a ValidationError.
unfoldable pub optional_text : Option Json → Option (Option String)
optional_text none = some none
optional_text (some null) = some none
optional_text (some (text s)) = some (some s)
optional_text (some _) = none

-- ExotelCallback.model_validate, after translate_exotel_fields.
unfoldable pub validate : Dict Json → Option ExotelCallback
unfolding or_value required_text optional_text
validate raw = do
  pid ← required_text (lookup "CallSid" raw)
  event ← required_text (lookup "EventType" raw)
  dialed ←
      optional_text (or_value (or_value (lookup "To" raw) (lookup "to" raw)) (lookup "Called" raw))
  call_status ← optional_text (or_value (lookup "Status" raw) (lookup "status" raw))
  some (record {
    provider_call_id = pid;
    event = event;
    dialed_number = dialed;
    call_status = call_status;
  })

-- The payload of a request; `none` is the answer 422.
unfoldable pub parse : HttpRequest → Option ExotelCallback
unfolding raw_fields validate
parse request = do raw ← raw_fields request; validate raw
