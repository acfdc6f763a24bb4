-- ===== src/Gateway/CallStore.antt =====
-- The mapping from Exotel's call id to the internal one: the protocol `CallStore` and the class
-- `_DictCallStore` of services/voice-gateway/exotel_routes.py, and `_RedisCallStore` of
-- services/voice-gateway/src/main.py. A Redis key is the provider's call id.
use ai_calling_agent.Prelude.{String, ◌==◌, Option, none, some, if◌then◌else◌}
use ai_calling_agent.Prelude.Dict.{Dict, lookup, insert, remove}
use ai_calling_agent.Gateway.Redis.{Redis}

pub record CallStore : Type 1 where
  pub State : Type 0
  pub set : String → String → State → State
  pub get : String → State → Option String
  pub delete : String → State → State

abbrev pub dict_call_store : CallStore
dict_call_store = record { State = Dict String; set = insert; get = lookup; delete = remove }

-- `value or None`
unfoldable pub non_empty : Option String → Option String
non_empty none = none
non_empty (some s) = if s == "" then none else some s

module _ (R : Redis String) where
  -- An error of Redis is logged and suppressed.
  unfoldable pub redis_set : String → String → R.Store → R.Store
  redis_set pid call_id s = elim (R.set pid call_id s) [ none ↦ s | some s' ↦ s' ]

  unfoldable pub redis_get : String → R.Store → Option String
  unfolding non_empty
  redis_get pid s = elim (R.get pid s) [ none ↦ none | some value ↦ non_empty value ]

  unfoldable pub redis_delete : String → R.Store → R.Store
  redis_delete pid s = elim (R.delete pid s) [ none ↦ s | some s' ↦ s' ]

  unfoldable pub redis_call_store : CallStore
  redis_call_store = record {
    State = R.Store;
    set = redis_set;
    get = redis_get;
    delete = redis_delete;
  }
