-- ===== src/Voice/Hearing.antt =====
-- services/voice-gateway/conversation.py: what `STTProcessor` holds between frames, and the end of a turn.
use ai_calling_agent.Prelude.{
  ℕ, ◌≡◌, refl, String, Bool, if◌then◌else◌, true, false, not, Bool-cases, inl, inr, ◌<◌, ◌+◌,
  Option, List, [], ◌∷◌, ◌++◌, length, leb, arith, if_keep,
}
use ai_calling_agent.Voice.Speech.{
  Listener, Ear, idle, flush_turn, flush_if_full, after_silence, is_whole, on_samples, handle_audio,
  process_audio, hang_up, listen,
}

leb→gt : (a b : ℕ) → leb a b ≡ false → b < a
leb→gt a b e = ground arith

-- Between frames the buffer is under its limit, the silence is shorter than what ends a turn, and outside
-- a turn nothing is held.
unfoldable pub IsHeld : Ear → Listener → Type 0
IsHeld ear l =
    (length l.buffer < ear.max_buffer_bytes)
    × (l.silence_run < ear.silence_frames_to_end_turn)
    × (l.speaking ≡ false → (l.buffer ≡ []) × (l.silence_run ≡ 0))

module _ (ear : Ear) (some_bytes : 0 < ear.max_buffer_bytes)
    (some_frames : 0 < ear.silence_frames_to_end_turn) where
  idle-IsHeld : IsHeld ear idle
  unfolding IsHeld
  idle-IsHeld = (some_bytes, some_frames, λ e. (refl, refl))

  flush_if_full-IsHeld :
      (l : Listener)
      → l.silence_run < ear.silence_frames_to_end_turn
      → (l.speaking ≡ false → (l.buffer ≡ []) × (l.silence_run ≡ 0))
      → IsHeld ear (flush_if_full ear l).0
  unfolding flush_if_full flush_turn IsHeld
  flush_if_full-IsHeld l short outside =
      elim (Bool-cases (leb ear.max_buffer_bytes (length l.buffer))) [
        | inl e ↦ rw e idle-IsHeld
        | inr e ↦ rw e (leb→gt ear.max_buffer_bytes (length l.buffer) e, short, outside)
      ]

  after_silence-IsHeld : (l : Listener) → l.speaking ≡ true → IsHeld ear (after_silence ear l).0
  unfolding after_silence flush_turn
  after_silence-IsHeld l talking =
      elim (Bool-cases (leb ear.silence_frames_to_end_turn l.silence_run)) [
        | inl e ↦ rw e idle-IsHeld
        | inr e ↦ rw e (
            flush_if_full-IsHeld l (leb→gt ear.silence_frames_to_end_turn l.silence_run e)
              (λ f. cc))
      ]

  after_silent_frame-IsHeld :
      (frame : List ℕ) (l : Listener) (talking : Bool)
      → l.speaking ≡ talking
      → IsHeld ear l
      → IsHeld ear
          (if talking
            then after_silence ear
                (record l { buffer = l.buffer ++ frame; silence_run = l.silence_run + 1 })
            else flush_if_full ear l).0
  unfolding IsHeld
  after_silent_frame-IsHeld frame l true e held =
      after_silence-IsHeld
        (record l { buffer = l.buffer ++ frame; silence_run = l.silence_run + 1 }) e
  after_silent_frame-IsHeld frame l false e held =
      let (full, short, outside) = held in flush_if_full-IsHeld l short outside

  on_samples-IsHeld :
      (frame : List ℕ) (l : Listener) → IsHeld ear l → IsHeld ear (on_samples ear frame l).0
  unfolding on_samples
  on_samples-IsHeld frame l held =
      if_keep {A = Listener × Option String} (λ r. IsHeld ear r.0) (not (ear.is_silent frame)) _ _
        (flush_if_full-IsHeld
          (record { buffer = l.buffer ++ frame; silence_run = 0; speaking = true }) some_frames
          (λ f. cc))
        (after_silent_frame-IsHeld frame l l.speaking refl held)

  process_audio-IsHeld :
      (frame : List ℕ) (l : Listener) → IsHeld ear l → IsHeld ear (process_audio ear frame l).0
  unfolding process_audio handle_audio
  process_audio-IsHeld frame l held = elim (Bool-cases (is_whole frame)) [
    | inl e ↦ rw (e, process_audio, handle_audio) (on_samples-IsHeld frame l held)
    | inr e ↦ rw (e, process_audio, handle_audio) held
  ]

  -- Whatever frames come, between two of them the buffer is under its limit, the silence is shorter than
  -- what ends a turn, and outside a turn nothing is held; and so it is after the call has ended, also where
  -- a frame of an odd number of bytes raises. Both limits are positive.
  pub listen-IsHeld :
      (frames : List (List ℕ)) (l : Listener)
      → IsHeld ear l
      → IsHeld ear (listen ear frames l).0 × IsHeld ear (hang_up (listen ear frames l).0)
  unfolding listen hang_up IsHeld
  listen-IsHeld [] l held =
      let (full, short, outside) = held in (held, (some_bytes, short, λ e. (refl, (outside e).1)))
  listen-IsHeld (frame ∷ frames) l held =
      listen-IsHeld frames (process_audio ear frame l).0 (process_audio-IsHeld frame l held)
