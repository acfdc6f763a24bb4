-- ===== src/Voice/Utterances.antt =====
-- services/voice-gateway/conversation.py: one turn of the caller, from its first frame to its transcription.
use ai_calling_agent.Prelude.{
  ℕ, ◌≡◌, refl, String, true, false, ap, ◌∙◌, sym, ◌<◌, ◌+◌, Option, none, List, [], ◌∷◌, ◌++◌,
  length, All, leb, arith, length-append, le→leb,
}
use mathlib.Core.List.{append_assoc, append-nil}
use ai_calling_agent.Voice.Speech.{
  Listener, Ear, idle, transcription, flush_turn, flush_if_full, after_silence, is_whole,
  on_samples, handle_audio, process_audio, listen,
}

gt→leb : (a b : ℕ) → b < a → leb a b ≡ false
gt→leb a b h = ground arith

abbrev pub joined : List (List ℕ) → List ℕ
joined [] = []
joined (frame ∷ frames) = frame ++ joined frames

-- `nothing` for each frame.
abbrev pub unanswered : List (List ℕ) → List (Option String)
unanswered [] = []
unanswered (frame ∷ frames) = none ∷ unanswered frames

module _ (ear : Ear) where
  -- No frame is cut inside a sample.
  abbrev pub IsWhole : List (List ℕ) → Type 0
  IsWhole frames = All (λ frame. is_whole frame ≡ true) frames

  abbrev pub IsSilence : List (List ℕ) → Type 0
  IsSilence frames = All (λ frame. ear.is_silent frame ≡ true) frames

  process_audio-whole :
      (frame : List ℕ) (l : Listener)
      → is_whole frame ≡ true
      → process_audio ear frame l ≡ on_samples ear frame l
  unfolding process_audio handle_audio
  process_audio-whole frame l whole = rw (whole, process_audio, handle_audio) refl

  -- A silent frame inside a turn.
  extended : List ℕ → Listener → Listener
  extended frame l = record l { buffer = l.buffer ++ frame; silence_run = l.silence_run + 1 }

  on_samples-silent :
      (frame : List ℕ) (l : Listener)
      → l.speaking ≡ true
      → ear.is_silent frame ≡ true
      → on_samples ear frame l ≡ after_silence ear (extended frame l)
  unfolding on_samples extended
  on_samples-silent frame l talking silent = ground arith

  on_samples-held :
      (frame : List ℕ) (l : Listener)
      → l.speaking ≡ true
      → ear.is_silent frame ≡ true
      → l.silence_run + 1 < ear.silence_frames_to_end_turn
      → length (l.buffer ++ frame) < ear.max_buffer_bytes
      → on_samples ear frame l ≡ (extended frame l, none)
  unfolding after_silence flush_if_full extended
  on_samples-held frame l talking silent short under =
      on_samples-silent frame l talking silent
      ∙ rw
          (
            gt→leb ear.silence_frames_to_end_turn (l.silence_run + 1) short,
            gt→leb ear.max_buffer_bytes (length (l.buffer ++ frame)) under,
          )
          refl

  on_samples-end :
      (frame : List ℕ) (l : Listener)
      → l.speaking ≡ true
      → ear.is_silent frame ≡ true
      → l.silence_run + 1 ≡ ear.silence_frames_to_end_turn
      → on_samples ear frame l ≡ (idle, transcription ear (l.buffer ++ frame))
  unfolding after_silence extended flush_turn
  on_samples-end frame l talking silent done =
      on_samples-silent frame l talking silent
      ∙ rw (le→leb ear.silence_frames_to_end_turn (l.silence_run + 1) (omega arith)) refl

  listen-none : (l : Listener) → listen ear [] l ≡ (l, [])
  unfolding listen
  listen-none l = refl

  listen-cons :
      (frame : List ℕ) (frames : List (List ℕ)) (l l' l'' : Listener) (text : Option String)
      (texts : List (Option String))
      → is_whole frame ≡ true
      → on_samples ear frame l ≡ (l', text)
      → listen ear frames l' ≡ (l'', texts)
      → listen ear (frame ∷ frames) l ≡ (l'', text ∷ texts)
  unfolding listen
  listen-cons frame frames l l' l'' text texts whole h t =
      ap (λ r. ((listen ear frames r.0).0, r.1 ∷ (listen ear frames r.0).1))
        (process_audio-whole frame l whole ∙ h)
      ∙ ap (λ r. (r.0, text ∷ r.1)) t

  -- From inside a turn: silence up to its end, with the buffer under its limit.
  listen_of_silence :
      (frame : List ℕ) (frames : List (List ℕ)) (l : Listener)
      → l.speaking ≡ true
      → IsWhole (frame ∷ frames)
      → IsSilence (frame ∷ frames)
      → l.silence_run + length (frame ∷ frames) ≡ ear.silence_frames_to_end_turn
      → length l.buffer + length (joined (frame ∷ frames)) < ear.max_buffer_bytes
      → listen ear (frame ∷ frames) l
        ≡ (idle, unanswered frames ++ transcription ear (l.buffer ++ joined (frame ∷ frames)) ∷ [])
  unfolding extended
  listen_of_silence frame [] l talking whole silent run under =
      listen-cons frame [] l idle idle (transcription ear (l.buffer ++ frame)) [] whole.0
        (on_samples-end frame l talking silent.0 run) (listen-none idle)
      ∙ ap (λ audio. (idle, transcription ear (l.buffer ++ audio) ∷ [])) (sym (append-nil frame))
  listen_of_silence frame (next ∷ frames) l talking whole silent run under =
      let joins = length-append l.buffer frame in
      let rest = length-append frame (joined (next ∷ frames)) in
      listen-cons frame (next ∷ frames) l (extended frame l) idle none
        (unanswered frames
          ++ transcription ear ((l.buffer ++ frame) ++ joined (next ∷ frames)) ∷ [])
        whole.0
        (on_samples-held frame l talking silent.0 (omega arith) (omega (arith, joins, rest)))
        (listen_of_silence next frames (extended frame l) talking whole.1 silent.1 (omega arith)
          (omega (arith, joins, rest)))
      ∙ ap (λ audio. (idle, none ∷ unanswered frames ++ transcription ear audio ∷ []))
          (append_assoc l.buffer frame (joined (next ∷ frames)))

  on_samples-voiced :
      (frame : List ℕ)
      → ear.is_silent frame ≡ false
      → length frame < ear.max_buffer_bytes
      → on_samples ear frame idle
        ≡ (record { buffer = frame; silence_run = 0; speaking = true }, none)
  unfolding on_samples flush_if_full
  on_samples-voiced frame heard under =
      rw (heard, gt→leb ear.max_buffer_bytes (length frame) under) refl

  -- A turn of the caller: a frame that is heard, then as many silent frames as end a turn, each of an even
  -- number of bytes, the whole under the limit of the buffer. Nothing is transcribed before the last of them; then the whole audio is, in
  -- order, and the next turn starts from nothing.
  pub listen-turn :
      (voiced frame : List ℕ) (frames : List (List ℕ))
      → IsWhole (voiced ∷ frame ∷ frames)
      → ear.is_silent voiced ≡ false
      → IsSilence (frame ∷ frames)
      → length (frame ∷ frames) ≡ ear.silence_frames_to_end_turn
      → length (joined (voiced ∷ frame ∷ frames)) < ear.max_buffer_bytes
      → listen ear (voiced ∷ frame ∷ frames) idle ≡ (
        idle,
        unanswered (voiced ∷ frames) ++ transcription ear (joined (voiced ∷ frame ∷ frames)) ∷ [],
      )
  listen-turn voiced frame frames whole heard silent run under =
      let joins = length-append voiced (joined (frame ∷ frames)) in
      listen-cons voiced (frame ∷ frames) idle
        (record { buffer = voiced; silence_run = 0; speaking = true }) idle none
        (unanswered frames ++ transcription ear (joined (voiced ∷ frame ∷ frames)) ∷ []) whole.0
        (on_samples-voiced voiced heard (omega (arith, joins)))
        (listen_of_silence frame frames
          (record { buffer = voiced; silence_run = 0; speaking = true }) refl whole.1 silent
          (omega arith) (omega (arith, joins)))
