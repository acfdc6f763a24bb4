-- ===== src/Gateway/Access.antt =====
-- Who may change the gateway by the callback of services/voice-gateway/exotel_routes.py.
use ai_calling_agent.Prelude.{◌≡◌, ◌≢◌, String, Option, none, some, arith, eq_iff}
use ai_calling_agent.Prelude.Dict.{lookup}
use ai_calling_agent.Calls.Token.{admitted, digest_verdict, compare_digest}
use ai_calling_agent.Gateway.Redis.{Redis}
use ai_calling_agent.Gateway.Sessions.{Session}
use ai_calling_agent.Gateway.CallStore.{CallStore}
use ai_calling_agent.Gateway.Payload.{HttpRequest, or_text, check_token, authenticate}
use ai_calling_agent.Gateway.Callback.{Env, Gateway, callback}

check_token-admitted :
    (secret : String) (given : Option String)
    → check_token secret given ≡ admitted
    → (given ≡ some secret) × (secret ≢ "")
unfolding check_token compare_digest digest_verdict
check_token-admitted secret none h = ground arith
check_token-admitted secret (some token) h =
    (ground (arith, eq_iff token secret), λ e. ground (arith, eq_iff token secret, eq_iff token ""))

-- A request changes anything only if it carries the webhook token, which is not empty, in its header, or,
-- where the header is missing or empty, in its query.
pub callback-authentic :
    (R : Redis Session) (C : CallStore) (env : Env) (request : HttpRequest) (gw : Gateway R C)
    → (callback R C env request gw).1 ≢ gw
    → (or_text request.token_header (lookup "token" request.query) ≡ some env.webhook_token)
      × (env.webhook_token ≢ "")
unfolding callback authenticate
callback-authentic R C env request gw changed =
    check_token-admitted env.webhook_token
      (or_text request.token_header (lookup "token" request.query)) (ground arith)
