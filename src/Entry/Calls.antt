-- ===== src/Entry/Calls.antt =====
-- services/api/src/main.py: `_save_session` and `make_call`.
use Prim.Native.String.{String, ◌++◌ as append}
use ai_calling_agent.Prelude.{
  ℕ, Bool, true, false, not, ◌&&◌, Option, none, some, List, ◌∷◌, eqb, is_some, if◌then◌else◌,
}
use ai_calling_agent.Prelude.Rows.{first}
use ai_calling_agent.Models.{not_attempted}
use ai_calling_agent.Gateway.Redis.{Redis}
use ai_calling_agent.Accounts.Models.{
  Client, Caller, pending, outbound, Accounts, Reply, ok, raised, guarded_write,
}
use ai_calling_agent.Accounts.Tokens.{Claims}
use ai_calling_agent.Accounts.Scope.{Context, tenant_context, is_visible}
use ai_calling_agent.Entry.Phone.{CallerRequest, validated}

-- Caller(…), with the columns that the INSERT fills in at `now`.
unfoldable pub new_caller : ℕ → ℕ → Option ℕ → CallerRequest → Caller
new_caller now fresh_id client_id request = record {
  id = fresh_id;
  customer_name = some request.customer_name;
  phone_number = some request.phone_number;
  hotel_name = some request.hotel_name;
  check_in_date = some request.check_in_date;
  check_out_date = some request.check_out_date;
  client_id = client_id;
  created_at = now;
  status = pending;
  call_type = outbound;
  is_simulation = false;
  customer_id = none;
  telephony_call_id = none;
  connection_status = not_attempted;
  failure_reason = none;
  duration_seconds = none;
  recording_url = none;
  notes = none;
  outcome = none;
}

-- The foreign key to clients allows the value.
unfoldable pub is_known_client : Option ℕ → List Client → Bool
is_known_client none clients = true
is_known_client (some id) clients = is_some (first (λ client. eqb client.id id) clients)

-- The INSERT meets the primary key, the foreign key, and the WITH CHECK of the policy.
unfoldable pub is_callable : Context → Caller → Accounts → Bool
unfolding is_known_client is_visible
is_callable ctx c db =
    not (is_some (first (λ other. eqb other.id c.id) db.callers))
    && (is_known_client c.client_id db.clients && is_visible ctx c.client_id)

-- The answer of POST /call: the session, where Redis is configured.
pub record CallPlaced : Type 0 where
  pub redis_session : Option String

module _ (R : Redis CallerRequest) where
  -- A RedisError is logged and swallowed; `none` is a Redis that is not configured.
  unfoldable pub save_session : String → CallerRequest → Option R.Store → Option R.Store
  save_session session_id request none = none
  save_session session_id request (some s) = elim (R.set (append "call:" session_id) request s) [
    | none ↦ some s
    | some s' ↦ some s'
  ]

  -- session_id if _redis else None
  unfoldable pub session_of : String → Option R.Store → Option String
  session_of session_id none = none
  session_of session_id (some s) = some session_id

  unfoldable pub place :
      ℕ
      → ℕ
      → String
      → Claims
      → CallerRequest
      → Accounts × Option R.Store
      → Reply CallPlaced × (Accounts × Option R.Store)
  unfolding new_caller is_callable save_session session_of
  place now fresh_id session_id user request (db, redis) =
      let caller = new_caller now fresh_id user.client_id request in
      if is_callable (tenant_context user) caller db
      then (
        ok (record { redis_session = session_of session_id redis }),
        (record db { callers = caller ∷ db.callers }, save_session session_id request redis),
      )
      else (raised 500 "Internal Server Error", (db, redis))

  -- POST /call
  unfoldable pub make_call :
      ℕ
      → ℕ
      → String
      → Claims
      → CallerRequest
      → Accounts × Option R.Store
      → Reply CallPlaced × (Accounts × Option R.Store)
  unfolding guarded_write validated place
  make_call now fresh_id session_id user request state =
      guarded_write (validated request) state (λ r. place now fresh_id session_id user r state)
