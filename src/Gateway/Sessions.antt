-- ===== src/Gateway/Sessions.antt =====
-- services/voice-gateway/src/main.py: `_GatewaySessionManager`, the sessions in memory and in Redis. A
-- Redis value is the session that its JSON text stands for; a key is the call's id.
use ai_calling_agent.Prelude.{ℕ, String, Option, none, some, List, [], ◌∷◌, ◌++◌}
use ai_calling_agent.Prelude.Dict.{Dict, lookup, insert, remove}
use ai_calling_agent.Gateway.Redis.{Redis}

pub data SessionStatus : Type 0 where
  active ended : SessionStatus

pub record Turn : Type 0 where
  pub role : String
  pub text : String
  pub at : ℕ

-- The session's dict; a missing "turns" is the empty list.
pub record Session : Type 0 where
  pub call_id : String
  pub tenant_id : String
  pub agent_id : String
  pub started_at : ℕ
  pub status : SessionStatus
  pub turns : List Turn

-- `redis` is none where no client is configured.
pub record Manager (R : Redis Session) : Type 0 where
  pub mem : Dict Session
  pub redis : Option R.Store

unfoldable pub new_session : ℕ → String → String → String → Session
new_session now call_id tenant_id agent_id = record {
  call_id = call_id;
  tenant_id = tenant_id;
  agent_id = agent_id;
  started_at = now;
  status = active;
  turns = [];
}

module _ (R : Redis Session) where
  -- A write whose RedisError is suppressed.
  unfoldable pub set_quietly : String → Session → Option R.Store → Option R.Store
  set_quietly k v none = none
  set_quietly k v (some s) = elim (R.set k v s) [ none ↦ some s | some s' ↦ some s' ]

  unfoldable pub delete_quietly : String → Option R.Store → Option R.Store
  delete_quietly k none = none
  delete_quietly k (some s) = elim (R.delete k s) [ none ↦ some s | some s' ↦ some s' ]

  -- A read that answers None on a RedisError.
  unfoldable pub read_quietly : String → Option R.Store → Option Session
  read_quietly k none = none
  read_quietly k (some s) = elim (R.get k s) [ none ↦ none | some x ↦ x ]

  unfoldable pub create : ℕ → String → String → String → Manager R → Manager R
  unfolding new_session set_quietly
  create now call_id tenant_id agent_id m = record {
    mem = insert call_id (new_session now call_id tenant_id agent_id) m.mem;
    redis = set_quietly call_id (new_session now call_id tenant_id agent_id) m.redis;
  }

  -- Where the session is not in memory: what Redis has is kept in memory.
  unfoldable pub load : String → Option Session → Manager R → Option Session × Manager R
  load call_id none m = (none, m)
  load call_id (some s) m = (some s, record m { mem = insert call_id s m.mem })

  unfoldable pub get : String → Manager R → Option Session × Manager R
  unfolding load read_quietly
  get call_id m = elim (lookup call_id m.mem) [
    | none ↦ load call_id (read_quietly call_id m.redis) m
    | some s ↦ (some s, m)
  ]

  unfoldable pub end_in_memory : String → Dict Session → Dict Session
  end_in_memory call_id mem = elim (lookup call_id mem) [
    | none ↦ mem
    | some s ↦ insert call_id (record s { status = ended }) mem
  ]

  -- Reads the copy in Redis and writes it back as ended.
  unfoldable pub end_in_redis : String → Option R.Store → Option R.Store
  unfolding read_quietly set_quietly
  end_in_redis call_id redis = elim (read_quietly call_id redis) [
    | none ↦ redis
    | some s ↦ set_quietly call_id (record s { status = ended }) redis
  ]

  unfoldable pub end : String → Manager R → Manager R
  unfolding end_in_memory end_in_redis
  end call_id m = record { mem = end_in_memory call_id m.mem; redis = end_in_redis call_id m.redis }

  unfoldable pub discard : String → Manager R → Manager R
  unfolding delete_quietly
  discard call_id m = record { mem = remove call_id m.mem; redis = delete_quietly call_id m.redis }

  -- Writes the session that the lookup found, with one more turn.
  unfoldable pub append_turn : String → Turn → Option Session → Manager R → Manager R
  unfolding set_quietly
  append_turn call_id turn none m = m
  append_turn call_id turn (some s) m =
      let s' = record s { turns = s.turns ++ turn ∷ [] } in
      record { mem = insert call_id s' m.mem; redis = set_quietly call_id s' m.redis }

  unfoldable pub add_turn : ℕ → String → String → String → Manager R → Manager R
  unfolding get append_turn
  add_turn now call_id role text m =
      let (session, m') = get call_id m in
      append_turn call_id (record { role = role; text = text; at = now }) session m'
