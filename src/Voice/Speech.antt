-- ===== src/Voice/Speech.antt =====
-- services/voice-gateway/conversation.py: `STTProcessor`, which gathers the caller's audio and finds the
-- end of a turn. Audio is a list of bytes; the energy test of a frame is numpy's and is a parameter.
use ai_calling_agent.Prelude.{
  ℕ, String, Bool, true, false, not, Option, none, some, List, [], ◌∷◌, ◌++◌, ◌+◌, ◌%◌, eqb, leb,
  length, if◌then◌else◌, ◌>>=◌,
}
use ai_calling_agent.Worker.Integration.{is_blank_text}

pub record Listener : Type 0 where
  pub buffer : List ℕ
  pub silence_run : ℕ
  pub speaking : Bool

-- `transcribe` answers none on an STTError; `strip` is str.strip.
pub record Ear : Type 0 where
  pub is_silent : List ℕ → Bool
  pub transcribe : List ℕ → Option String
  pub strip : String → String
  pub silence_frames_to_end_turn : ℕ
  pub max_buffer_bytes : ℕ

abbrev pub idle : Listener
idle = record { buffer = []; silence_run = 0; speaking = false }

-- An EndFrame or a CancelFrame.
unfoldable pub hang_up : Listener → Listener
hang_up l = record l { buffer = [] }

-- The bytes are a whole number of int16 samples.
unfoldable pub is_whole : List ℕ → Bool
is_whole audio = eqb (length audio % 2) 0

module _ (ear : Ear) where
  -- The text of a TranscriptionFrame, where one is pushed.
  unfoldable pub transcription : List ℕ → Option String
  unfolding is_blank_text
  transcription [] = none
  transcription (b ∷ audio) = ear.transcribe (b ∷ audio) >>= λ text.
      if is_blank_text (ear.strip text) then none else some (ear.strip text)

  unfoldable pub flush_turn : Listener → Listener × Option String
  unfolding transcription
  flush_turn l = (idle, transcription l.buffer)

  unfoldable pub flush_if_full : Listener → Listener × Option String
  unfolding flush_turn
  flush_if_full l = if leb ear.max_buffer_bytes (length l.buffer) then flush_turn l else (l, none)

  unfoldable pub after_silence : Listener → Listener × Option String
  unfolding flush_turn flush_if_full
  after_silence l =
      if leb ear.silence_frames_to_end_turn l.silence_run then flush_turn l else flush_if_full l

  -- After the samples have been read.
  unfoldable pub on_samples : List ℕ → Listener → Listener × Option String
  unfolding flush_if_full after_silence
  on_samples audio l =
      if not (ear.is_silent audio)
      then flush_if_full (record { buffer = l.buffer ++ audio; silence_run = 0; speaking = true })
      else if l.speaking
      then after_silence (record l { buffer = l.buffer ++ audio; silence_run = l.silence_run + 1 })
      else flush_if_full l

  -- `none` is the ValueError of np.frombuffer, before anything is changed.
  unfoldable pub handle_audio : List ℕ → Listener → Option (Listener × Option String)
  unfolding is_whole on_samples
  handle_audio audio l = if is_whole audio then some (on_samples audio l) else none

  -- An audio frame in process_frame: what the handler leaves, and what it pushes.
  unfoldable pub process_audio : List ℕ → Listener → Listener × Option String
  unfolding handle_audio
  process_audio audio l = elim (handle_audio audio l) [ none ↦ (l, none) | some r ↦ r ]

  -- The audio frames that the processor is given, in order: the transcriptions that are pushed.
  unfoldable pub listen : List (List ℕ) → Listener → Listener × List (Option String)
  unfolding process_audio
  listen [] l = (l, [])
  listen (frame ∷ frames) l =
      let (l', text) = process_audio frame l in
      let (l'', texts) = listen frames l' in (l'', text ∷ texts)
