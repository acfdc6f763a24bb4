-- ===== src/Voice/Dialogue.antt =====
-- services/voice-gateway/conversation.py: the session that a conversation leaves behind.
use ai_calling_agent.Prelude.{◌≡◌, refl, String, ap, ◌∙◌, Option, some, List, [], ◌∷◌, ◌++◌}
use ai_calling_agent.Prelude.Dict.{lookup}
use ai_calling_agent.Gateway.Redis.{Redis}
use ai_calling_agent.Gateway.Sessions.{Session, Turn, Manager, add_turn}
use ai_calling_agent.Gateway.Turns.{get_in_memory, add_turn_in_memory}
use ai_calling_agent.Voice.Answers.{
  response_text, turns_of, Heard, respond, handle_user_turn, converse,
}

abbrev pub user_turn : Heard → Turn
user_turn h = record { role = "user"; text = h.text; at = h.heard_at }

module _ (generate : List Turn → Option String) where
  -- The answer to a turn, given all the turns before it.
  abbrev pub answer : Heard → List Turn → String
  answer h turns = response_text (generate (turns ++ user_turn h ∷ []))

  -- A conversation without a store: the turns that come after those there are, and what is said.
  unfoldable pub dialogue : List Heard → List Turn → List Turn × List String
  dialogue [] turns = (turns, [])
  dialogue (h ∷ hs) turns =
      let said = answer h turns in
      let (turns', texts) = dialogue hs (
        (turns ++ user_turn h ∷ [])
        ++ record { role = "assistant"; text = said; at = h.answered_at } ∷ []) in
      (turns', said ∷ texts)

  module _ (R : Redis Session) (id : String) where
    handle_user_turn_lem :
        (h : Heard) (s : Session) (m : Manager R)
        → lookup id m.mem ≡ some s
        → ((handle_user_turn R generate id h m).0 ≡ answer h s.turns)
          × (lookup id (handle_user_turn R generate id h m).1.mem
              ≡ some (record s {
                turns =
                    (s.turns ++ user_turn h ∷ [])
                    ++ record { role = "assistant"; text = answer h s.turns; at = h.answered_at }
                      ∷ [];
              }))
    unfolding handle_user_turn respond turns_of
    handle_user_turn_lem h s m found =
        let s' = record s { turns = s.turns ++ user_turn h ∷ [] } in
        let m' = add_turn R h.heard_at id "user" h.text m in
        let stored = add_turn_in_memory R h.heard_at id "user" h.text s m found in
        rw (get_in_memory R id s' m' stored)
          (refl, add_turn_in_memory R h.answered_at id "assistant" (answer h s.turns) s' m' stored)

    -- Where the call's session is in memory, what is said to the caller's turns, and the turns that the
    -- session then has, are those of the conversation without a store: each answer is generated from
    -- all the turns before it, the caller's last one included, both are kept in order, and nothing
    -- else of the session changes; whether Redis is there, fails or is not configured.
    pub converse-dialogue :
        (hs : List Heard) (s : Session) (m : Manager R)
        → lookup id m.mem ≡ some s
        → ((converse R generate id hs m).0 ≡ (dialogue hs s.turns).1)
          × (lookup id (converse R generate id hs m).1.mem
              ≡ some (record s { turns = (dialogue hs s.turns).0 }))
    unfolding converse dialogue
    converse-dialogue [] s m found = (refl, found)
    converse-dialogue (h ∷ hs) s m found =
        let (said, stored) = handle_user_turn_lem h s m found in
        let rest =
          converse-dialogue hs
            (record s {
              turns =
                  (s.turns ++ user_turn h ∷ [])
                  ++ record { role = "assistant"; text = answer h s.turns; at = h.answered_at }
                    ∷ [];
            })
            (handle_user_turn R generate id h m).1 stored in
        (
          ap (λ t. t ∷ (converse R generate id hs (handle_user_turn R generate id h m).1).0) said
              ∙ ap (λ t. answer h s.turns ∷ t) rest.0,
          rest.1,
        )
