-- ===== src/Gateway/Available.antt =====
-- A Redis that is always reachable and keeps its keys, for runs at concrete inputs.
use ai_calling_agent.Prelude.{◌≡◌, String, ◌==◌, false, Option, none, some, [], arith, eq_refl}
use ai_calling_agent.Prelude.Dict.{Dict, lookup, insert, remove, lookup-insert, lookup-remove}
use ai_calling_agent.Gateway.Redis.{Redis}
use ai_calling_agent.Gateway.Sessions.{Session, Manager}

pub delete_self :
    (V : Type 0) (k : String) (s s' : Dict V) (x : Option V)
    → ◌≡◌ {A = Option (Dict V)} (some (remove k s)) (some s')
    → ◌≡◌ {A = Option (Option V)} (some (lookup k s')) (some x)
    → x ≡ none
delete_self V k s s' x e f = ground (arith, lookup-remove k k s, eq_refl k)

pub delete_other :
    (V : Type 0) (k j : String) (s s' : Dict V)
    → ◌≡◌ {A = Option (Dict V)} (some (remove k s)) (some s')
    → (k == j) ≡ false
    → ◌≡◌ {A = Option (Option V)} (some (lookup j s')) (some (lookup j s))
delete_other V k j s s' e n = ground (arith, lookup-remove k j s)

pub keep_other :
    (V : Type 0) (k j : String) (v : V) (s s' : Dict V)
    → ◌≡◌ {A = Option (Dict V)} (some (insert k v s)) (some s')
    → (k == j) ≡ false
    → ◌≡◌ {A = Option (Option V)} (some (lookup j s')) (some (lookup j s))
keep_other V k j v s s' e n = ground (arith, lookup-insert k j v s)

abbrev pub up : (V : Type 0) → Redis V
up V = record {
  Store = Dict V;
  set = λ k v s. some (insert k v s);
  get = λ k s. some (lookup k s);
  delete = λ k s. some (remove k s);
  get-delete_self = delete_self V;
  get-delete_ne = delete_other V;
  get-set_ne = keep_other V;
}

abbrev pub R : Redis Session
R = up Session

abbrev pub empty : Manager R
empty = record { mem = []; redis = some [] }
