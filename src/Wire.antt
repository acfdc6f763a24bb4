-- ===== src/Wire.antt =====
-- The HTTP requests between the services: `_with_internal_auth` and the error handling that the clients
-- services/voice-gateway/internal_calls.py and services/worker/src/jobs_client.py share. The network
-- and the HTTP library are no part of the repository: a Link says how they treat one request.
use ai_calling_agent.Prelude.{◌≡◌, refl, arith, String, Option, none, some, ◌==◌, if◌then◌else◌}
use ai_calling_agent.Calls.Token.{Verdict, admitted, unauthorized, type_error}

-- Delivered; not delivered, or lost on the way back after the server carried it out, which the client
-- sees as one and the same httpx.HTTPError.
pub data Link : Type 0 where
  delivered unreachable response_lost : Link

-- The X-Internal-API-Token header that a client sends.
unfoldable pub with_internal_auth : String → Option String
with_internal_auth token = if token == "" then none else some token

-- A guarded handler: the guard's refusal is an error response and leaves the server as it was.
unfoldable pub guarded {ℓ κ} :
    {A : Type ℓ} {S : Type κ} → Verdict → (S → Option A × S) → S → Option A × S
guarded admitted handler s = handler s
guarded unauthorized handler s = (none, s)
guarded type_error handler s = (none, s)

-- What the client makes of a request: `none` is its error, raised on a failure of the transport and on
-- an error response alike.
unfoldable pub exchange {ℓ κ} :
    {A : Type ℓ} {S : Type κ} → Link → Verdict → (S → Option A × S) → S → Option A × S
exchange delivered v handler s = guarded v handler s
exchange unreachable v handler s = (none, s)
exchange response_lost v handler s = (none, (guarded v handler s).1)

-- A request that the client takes for answered was carried out.
pub exchange-some {ℓ κ} :
    {A : Type ℓ} {S : Type κ} (link : Link) (v : Verdict) (handler : S → Option A × S) (s : S)
    (a : A)
    → (exchange link v handler s).0 ≡ some a
    → exchange link v handler s ≡ handler s
unfolding exchange guarded
exchange-some delivered admitted handler s a h = refl
exchange-some delivered unauthorized handler s a h = ground arith
exchange-some delivered type_error handler s a h = ground arith
exchange-some unreachable v handler s a h = ground arith
exchange-some response_lost v handler s a h = ground arith

-- What a handler keeps, an exchange with it keeps.
pub exchange-keeps {ℓ κ} :
    {A B : Type ℓ} {S : Type κ} (f : S → B) (link : Link) (v : Verdict) (handler : S → Option A × S)
    (s : S)
    → f (handler s).1 ≡ f s
    → f (exchange link v handler s).1 ≡ f s
unfolding exchange guarded
exchange-keeps f delivered admitted handler s h = h
exchange-keeps f delivered unauthorized handler s h = refl
exchange-keeps f delivered type_error handler s h = refl
exchange-keeps f unreachable v handler s h = refl
exchange-keeps f response_lost admitted handler s h = h
exchange-keeps f response_lost unauthorized handler s h = refl
exchange-keeps f response_lost type_error handler s h = refl
