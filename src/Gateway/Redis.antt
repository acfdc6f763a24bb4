-- ===== src/Gateway/Redis.antt =====
-- What the voice gateway relies on of the Redis client. The client and the server are no part of the
-- repository: a store is a state of them, with their reachability and the expiry of keys, and `none` is
-- a RedisError. A value that is read may be missing, since keys expire.
use ai_calling_agent.Prelude.{◌≡◌, String, ◌==◌, false, Option, none, some}

pub record Redis (V : Type 0) : Type 1 where
  pub Store : Type 0
  -- SET key value EX ttl
  pub set : String → V → Store → Option Store
  -- GET key
  pub get : String → Store → Option (Option V)
  -- DEL key
  pub delete : String → Store → Option Store
  -- A deleted key is not read back.
  pub get-delete_self :
      (k : String) (s s' : Store) (x : Option V)
      → delete k s ≡ some s'
      → get k s' ≡ some x
      → x ≡ none
  -- Deleting a key leaves the other keys alone.
  pub get-delete_ne :
      (k j : String) (s s' : Store) → delete k s ≡ some s' → (k == j) ≡ false → get j s' ≡ get j s
  -- Setting a key leaves the other keys alone.
  pub get-set_ne :
      (k j : String) (v : V) (s s' : Store)
      → set k v s ≡ some s'
      → (k == j) ≡ false
      → get j s' ≡ get j s
