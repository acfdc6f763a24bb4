-- ===== src/Voice/Answers.antt =====
-- services/voice-gateway/conversation.py: `AIProcessor`, which answers a turn of the caller and keeps
-- both in the session of the call, and `TTSProcessor`, which speaks the answer.
use ai_calling_agent.Prelude.{
  ℕ, String, Bool, true, false, Option, none, some, List, [], ◌∷◌, if◌then◌else◌,
}
use ai_calling_agent.Gateway.Redis.{Redis}
use ai_calling_agent.Gateway.Sessions.{Session, Turn, Manager, get, add_turn}
use ai_calling_agent.Worker.Integration.{is_blank_text}

-- The reply where the provider fails.
abbrev pub apology : String
apology = "I'm sorry, something went wrong on my end. Could you repeat that?"

unfoldable pub response_text : Option String → String
response_text none = apology
response_text (some text) = text

unfoldable pub turns_of : Option Session → List Turn
turns_of none = []
turns_of (some s) = s.turns

-- A caller's turn, with the times at which it and its answer are stored.
pub record Heard : Type 0 where
  pub text : String
  pub heard_at : ℕ
  pub answered_at : ℕ

-- `generate` is the provider's generate_response; none is an AIError.
module _ (R : Redis Session) (generate : List Turn → Option String) (call_id : String) where
  unfoldable pub respond : ℕ → List Turn → Manager R → String × Manager R
  unfolding response_text add_turn
  respond now turns m =
      let text = response_text (generate turns) in (text, add_turn R now call_id "assistant" text m)

  unfoldable pub handle_user_turn : Heard → Manager R → String × Manager R
  unfolding respond turns_of add_turn get
  handle_user_turn h m =
      let (session, m') = get R call_id (add_turn R h.heard_at call_id "user" h.text m) in
      respond h.answered_at (turns_of session) m'

  -- `greeted` and the store; the greeting, where one is said.
  unfoldable pub maybe_greet : ℕ → Bool → Manager R → Option String × Bool × Manager R
  unfolding respond
  maybe_greet now true m = (none, true, m)
  maybe_greet now false m = let (text, m') = respond now [] m in (some text, true, m')

  -- The caller's turns in order: what is said to each, and the store.
  unfoldable pub converse : List Heard → Manager R → List String × Manager R
  unfolding handle_user_turn
  converse [] m = ([], m)
  converse (h ∷ hs) m =
      let (text, m') = handle_user_turn h m in
      let (texts, m'') = converse hs m' in (text ∷ texts, m'')

-- The audio and the sample rate that are pushed; `synthesize` answers none on a TTSError.
unfoldable pub handle_text : (String → Option (List ℕ × ℕ)) → String → Option (List ℕ × ℕ)
unfolding is_blank_text
handle_text synthesize text = if is_blank_text text then none else synthesize text
