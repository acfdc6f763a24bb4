-- ===== src/Gateway/Recorder.antt =====
-- services/voice-gateway/exotel_routes.py: `_InMemoryEventRecorder`, the recorder of a router that is
-- built without the API's.
use ai_calling_agent.Prelude.{
  ◌≡◌, String, Bool, true, false, ◌&&◌, ◌==◌, List, [], ◌∷◌, arith, eq_refl, if◌then◌else◌,
}

-- key in self._seen
unfoldable pub seen : String → String → List (String × String) → Bool
seen pid event [] = false
seen pid event ((p, e) ∷ keys) =
    let rest = seen pid event keys in if p == pid && e == event then true else rest

-- The answer of `record`, and the set that it leaves.
unfoldable pub record_in_memory :
    String → String → List (String × String) → Bool × List (String × String)
unfolding seen
record_in_memory pid event keys =
    if seen pid event keys then (true, keys) else (false, (pid, event) ∷ keys)

-- An event that was recorded is answered as a duplicate, and nothing is added.
pub record_in_memory-record_in_memory :
    (pid event : String) (keys : List (String × String))
    → let keys' = (record_in_memory pid event keys).1 in
      record_in_memory pid event keys' ≡ (true, keys')
unfolding record_in_memory
record_in_memory-record_in_memory pid event keys = ground (arith, eq_refl pid, eq_refl event)
