-- ===== src/Voice/Tests.antt =====
-- services/voice-gateway/conversation.py: the stages at concrete inputs. A frame is silent where it has no
-- byte of 100 or more, and two silent frames end a turn.
use ai_calling_agent.Prelude.{
  false, ℕ, ◌≡◌, refl, String, Bool, true, ◌&&◌, Option, none, some, List, [], ◌∷◌, ltb, length,
  eqb, if◌then◌else◌, arith,
}
use ai_calling_agent.Prelude.Dict.{lookup, remove}
use ai_calling_agent.Gateway.Sessions.{Session, Turn, Manager, active}
use ai_calling_agent.Gateway.Available.{R}
use ai_calling_agent.Voice.Speech.{Listener, Ear, idle, is_whole, transcription, listen, hang_up}
use ai_calling_agent.Voice.Answers.{
  Heard, apology, response_text, converse, maybe_greet, handle_text,
}
use ai_calling_agent.Voice.Hearing.{IsHeld, listen-IsHeld}
use ai_calling_agent.Voice.Utterances.{listen-turn}
use ai_calling_agent.Voice.Line.{answered, refused, VoiceGateway, voice_websocket}
use ai_calling_agent.Voice.Hangups.{IsSettled, voice_websocket-IsSettled}
use ai_calling_agent.Voice.Dialogue.{dialogue, converse-dialogue}

abbrev quiet : List ℕ → Bool
quiet [] = true
quiet (b ∷ bytes) = ltb b 100 && quiet bytes

abbrev transcribed : List ℕ → Option String
transcribed audio = if eqb (length audio) 6 then some "A room, please." else none

abbrev ear : Ear
ear = record {
  is_silent = quiet;
  transcribe = transcribed;
  strip = λ text. text;
  silence_frames_to_end_turn = 2;
  max_buffer_bytes = 8;
}

abbrev loud : List ℕ
loud = 200 ∷ 1 ∷ []

abbrev soft : List ℕ
soft = 3 ∷ 4 ∷ []

listen-turn_example :
    listen ear (loud ∷ soft ∷ soft ∷ []) idle
    ≡ (idle, none ∷ none ∷ transcription ear (200 ∷ 1 ∷ 3 ∷ 4 ∷ 3 ∷ 4 ∷ []) ∷ [])
unfolding is_whole
listen-turn_example =
    listen-turn ear loud soft (soft ∷ []) (refl, (refl, (refl, tt))) refl (refl, (refl, tt)) refl
      (omega arith)

-- A frame of three bytes raises and is lost.
listen-turn_text :
    (listen ear (loud ∷ soft ∷ (3 ∷ 4 ∷ 5 ∷ []) ∷ soft ∷ []) idle).1
    ≡ none ∷ none ∷ none ∷ some "A room, please." ∷ []
unfolding listen
listen-turn_text = refl

-- A caller who does not stop is transcribed once the buffer is full.
listen_when_full :
    listen ear (loud ∷ loud ∷ loud ∷ loud ∷ []) idle ≡ (idle, none ∷ none ∷ none ∷ none ∷ [])
unfolding listen
listen_when_full = refl

abbrev in_turn : Listener
in_turn = record { buffer = loud; silence_run = 1; speaking = true }

listen-IsHeld_example :
    IsHeld ear (listen ear (soft ∷ loud ∷ []) in_turn).0
    × IsHeld ear (hang_up (listen ear (soft ∷ loud ∷ []) in_turn).0)
unfolding IsHeld
listen-IsHeld_example =
    listen-IsHeld ear (omega arith) (omega arith) (soft ∷ loud ∷ []) in_turn
      (omega arith, omega arith, λ e. cc)

abbrev call_1 : Session
call_1 = record {
  call_id = "call-1";
  tenant_id = "7";
  agent_id = "agent";
  started_at = 5;
  status = active;
  turns = [];
}

abbrev busy : Manager R
busy = record { mem = ("call-1", call_1) ∷ []; redis = some (("call-1", call_1) ∷ []) }

-- A provider that fails on the caller's second turn.
abbrev provider : List Turn → Option String
provider (a ∷ b ∷ c ∷ turns) = none
provider _ = some "Welcome!"

abbrev two_turns : List Heard
two_turns =
    record { text = "Hello?"; heard_at = 6; answered_at = 7 }
    ∷ record { text = "A room, please."; heard_at = 8; answered_at = 9 }
    ∷ []

converse-dialogue_example :
    ((converse R provider "call-1" two_turns busy).0 ≡ (dialogue provider two_turns []).1)
    × (lookup "call-1" (converse R provider "call-1" two_turns busy).1.mem
        ≡ some (record call_1 { turns = (dialogue provider two_turns []).0 }))
unfolding lookup
converse-dialogue_example = converse-dialogue provider R "call-1" two_turns call_1 busy refl

dialogue_of_two : (dialogue provider two_turns []).1 ≡ "Welcome!" ∷ apology ∷ []
unfolding dialogue response_text
dialogue_of_two = refl

-- The caller is greeted once.
greeted_once : (maybe_greet R provider "call-1" 6 true busy).0 ≡ none
unfolding maybe_greet
greeted_once = refl

silent_for_blank : handle_text (λ text. some (1 ∷ [], 16000)) " " ≡ none
unfolding handle_text
silent_for_blank = refl

abbrev line : VoiceGateway R
line = record { sessions = busy; active_calls = 2; draining = false }

-- The pipeline ends by an exception after two turns of the caller.
abbrev pipeline : Manager R → Manager R × Bool
pipeline m = ((converse R provider "call-1" two_turns m).1, false)

voice_websocket-IsSettled_example : IsSettled R "call-1" false line (
    voice_websocket R 5 false answered
      (λ m. ((converse R provider "call-1" two_turns m).1, false))
      "call-1"
      (record { sessions = busy; active_calls = 2; draining = false }))
voice_websocket-IsSettled_example =
    voice_websocket-IsSettled R "call-1" (λ s. (remove "call-1" s, refl)) 5 false answered
      (λ m. ((converse R provider "call-1" two_turns m).1, false))
      (record { sessions = busy; active_calls = 2; draining = false }) (λ e. cc)

-- An unknown call is refused, and a draining gateway refuses a known one.
unknown_call :
    voice_websocket R 5 false answered pipeline "call-2" line
    ≡ (refused 4404 "unknown call_id", line)
unfolding voice_websocket lookup
unknown_call = refl

while_draining :
    (voice_websocket R 5 false answered pipeline "call-1" (record line { draining = true })).0
    ≡ refused 1013 "server draining for deploy"
unfolding voice_websocket
while_draining = refl
