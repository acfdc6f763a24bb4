-- ===== src/Calls/Token.antt =====
-- The shared-secret guard of the internal routes: `verify_internal_token` of
-- services/api/src/routers/internal.py.
use Prim.Native.Char.{code}
use ai_calling_agent.Prelude.{
  ◌≡◌, ◌≢◌, String, Bool, true, false, ◌&&◌, ◌||◌, ◌==◌, Option, none, some, arith, ltb, eq_iff,
  if◌then◌else◌,
}

unfoldable pub is_ascii : String → Bool
is_ascii String.[] = true
is_ascii (String.◌∷◌ c s) = ltb (code c) 128 && is_ascii s

-- hmac.compare_digest on two texts: `none` is the TypeError that a text beyond ASCII raises.
unfoldable pub compare_digest : String → String → Option Bool
compare_digest a b = if is_ascii a && is_ascii b then some (a == b) else none

-- The answers of the guard: the request goes on, is refused with 401, or ends in an exception.
pub data Verdict : Type 0 where
  admitted unauthorized type_error : Verdict

unfoldable pub digest_verdict : Option Bool → Verdict
digest_verdict none = type_error
digest_verdict (some true) = admitted
digest_verdict (some false) = unauthorized

-- `secret` is INTERNAL_API_TOKEN, "" where it is not set; `header` is X-Internal-API-Token.
unfoldable pub verify_internal_token : String → Option String → Verdict
unfolding digest_verdict
verify_internal_token secret none = unauthorized
verify_internal_token secret (some token) =
    if secret == "" || token == ""
    then unauthorized
    else digest_verdict (compare_digest token secret)

-- A request is admitted only with the configured secret in its header, and a secret that is empty or
-- not set admits nobody.
pub verify_internal_token-admitted :
    (secret : String) (header : Option String)
    → verify_internal_token secret header ≡ admitted
    → (header ≡ some secret) × (secret ≢ "")
unfolding verify_internal_token compare_digest
verify_internal_token-admitted secret none h = ground arith
verify_internal_token-admitted secret (some token) h =
    (ground (arith, eq_iff token secret), λ e. ground (arith, eq_iff secret ""))

-- The configured secret, unless it is empty or beyond ASCII, is admitted.
pub verify_internal_token-secret :
    (secret : String)
    → secret ≢ ""
    → is_ascii secret ≡ true
    → verify_internal_token secret (some secret) ≡ admitted
unfolding verify_internal_token compare_digest
verify_internal_token-secret secret set plain =
    ground (arith, eq_iff secret "", eq_iff secret secret)
