-- ===== src/Voice/Line.antt =====
-- services/voice-gateway/voice_pipeline.py: `voice_websocket` and `_run_call`, the life of one audio stream.
-- What the Pipecat pipeline does with the sessions while it runs is a parameter.
use ai_calling_agent.Prelude.{
  ℕ, String, Bool, true, false, Option, none, some, ◌+◌, ◌-◌, if◌then◌else◌,
}
use ai_calling_agent.Gateway.Redis.{Redis}
use ai_calling_agent.Gateway.Sessions.{Session, Manager, get, create, end, discard}

-- What parse_telephony_websocket does: it answers, raises a ValueError, or raises something else.
pub data Handshake : Type 0 where
  answered value_error other_error : Handshake

-- A refused connection, one that was served, and one whose exception leaves the handler.
pub data SocketOutcome : Type 0 where
  refused : ℕ → String → SocketOutcome
  served interrupted : SocketOutcome

module _ (R : Redis Session) where
  -- The sessions and the two globals of src/main.py.
  pub record VoiceGateway : Type 0 where
    pub sessions : Manager R
    pub active_calls : ℕ
    pub draining : Bool

  unfoldable pub on_call_started : VoiceGateway → VoiceGateway
  on_call_started gw = record gw { active_calls = gw.active_calls + 1 }

  -- Never at 0, since the call that ends was counted.
  unfoldable pub on_call_ended : VoiceGateway → VoiceGateway
  on_call_ended gw = record gw { active_calls = gw.active_calls - 1 }

  -- The session of the call is ended and removed, where the lookup found one.
  unfoldable pub finish_found : String → Option Session × Manager R → Manager R
  unfolding end discard
  finish_found call_id (none, m) = m
  finish_found call_id (some s, m) = discard R call_id (end R call_id m)

  unfoldable pub finish_session : String → Manager R → Manager R
  unfolding finish_found get
  finish_session call_id m = finish_found call_id (get R call_id m)

  -- `run` is runner.run() and transport.cleanup(), with false where an exception leaves them.
  unfoldable pub run_call :
      Handshake → (Manager R → Manager R × Bool) → String → Manager R → Manager R × Bool
  unfolding finish_session
  run_call answered run call_id m =
      let (m', returned) = run m in (finish_session call_id m', returned)
  run_call value_error run call_id m = (finish_session call_id m, true)
  run_call other_error run call_id m = (m, false)

  unfoldable pub serve :
      Handshake
      → (Manager R → Manager R × Bool)
      → String
      → VoiceGateway
      → SocketOutcome × VoiceGateway
  unfolding on_call_started on_call_ended run_call
  serve handshake run call_id gw =
      let gw' = on_call_started gw in
      let (m, returned) = run_call handshake run call_id gw'.sessions in
      (if returned then served else interrupted, on_call_ended (record gw' { sessions = m }))

  -- The sessions with one for the call, where the connection is let in, and those that the lookup left.
  unfoldable pub admit :
      ℕ → Bool → String → Option Session × Manager R → Option (Manager R) × Manager R
  unfolding create
  admit now allow_unresolved_sessions call_id (some s, m) = (some m, m)
  admit now true call_id (none, m) = (some (create R now call_id "unknown" "unknown" m), m)
  admit now false call_id (none, m) = (none, m)

  unfoldable pub admitted : ℕ → Bool → String → Manager R → Option (Manager R) × Manager R
  unfolding get admit
  admitted now allow_unresolved_sessions call_id m =
      admit now allow_unresolved_sessions call_id (get R call_id m)

  unfoldable pub connect :
      Handshake
      → (Manager R → Manager R × Bool)
      → String
      → Option (Manager R) × Manager R
      → VoiceGateway
      → SocketOutcome × VoiceGateway
  unfolding serve
  connect handshake run call_id (none, m) gw =
      (refused 4404 "unknown call_id", record gw { sessions = m })
  connect handshake run call_id (some m, _) gw =
      serve handshake run call_id (record gw { sessions = m })

  unfoldable pub voice_websocket :
      ℕ
      → Bool
      → Handshake
      → (Manager R → Manager R × Bool)
      → String
      → VoiceGateway
      → SocketOutcome × VoiceGateway
  unfolding admitted connect
  voice_websocket now allow_unresolved_sessions handshake run call_id gw =
      if gw.draining
      then (refused 1013 "server draining for deploy", gw)
      else connect handshake run call_id
          (admitted now allow_unresolved_sessions call_id gw.sessions) gw
