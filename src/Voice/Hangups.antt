-- ===== src/Voice/Hangups.antt =====
-- services/voice-gateway/voice_pipeline.py: what an audio stream leaves behind.
use ai_calling_agent.Prelude.{
  ℕ, ◌≡◌, ◌≢◌, refl, String, Bool, true, false, ◌∙◌, ap, ◌⊎◌, inl, inr, Option-cases, ◌+◌, ◌-◌,
  Option, none, some, arith, if◌then◌else◌,
}
use ai_calling_agent.Prelude.Dict.{lookup}
use ai_calling_agent.Gateway.Redis.{Redis}
use ai_calling_agent.Gateway.Sessions.{Session, Manager, get, end, discard, load, read_quietly}
use ai_calling_agent.Gateway.Turns.{get-discard}
use ai_calling_agent.Voice.Line.{
  Handshake, answered, value_error, other_error, SocketOutcome, refused, served, interrupted,
  on_call_started, on_call_ended, VoiceGateway, finish_found, finish_session, admit, run_call,
  serve, admitted, connect, voice_websocket,
}

module _ (R : Redis Session) (id : String) where
  get_of_missing : (m : Manager R) → (get R id m).0 ≡ none → get R id m ≡ (none, m)
  unfolding get load
  get_of_missing m gone = elim (Option-cases (lookup id m.mem)) [
    | inl e ↦ elim (Option-cases (read_quietly R id m.redis)) [
      | inl f ↦ ground arith
      | inr (s, f) ↦ ground arith
    ]
    | inr (s, e) ↦ ground arith
  ]

  -- Every DEL of the call's key goes through.
  abbrev pub Deletes : Type 0
  Deletes = (s : R.Store) → (s' : R.Store) × (R.delete id s ≡ some s')

  discard-get : Deletes → (m : Manager R) → (get R id (discard R id m)).0 ≡ none
  discard-get deletes m = elim (Option-cases m.redis) [
    | inl off ↦ get-discard R id m (inl off)
    | inr (s, on) ↦ let (s', gone) = deletes s in get-discard R id m (inr (s, s', on, gone))
  ]

  finish_found-get :
      Deletes
      → (r : Option Session × Manager R) → (r.0 ≡ none → (get R id r.1).0 ≡ none)
      → (get R id (finish_found R id r)).0 ≡ none
  unfolding finish_found
  finish_found-get deletes (none, m) out = out refl
  finish_found-get deletes (some s, m) out = discard-get deletes (end R id m)

  finish_session-get : Deletes → (m : Manager R) → (get R id (finish_session R id m)).0 ≡ none
  unfolding finish_session
  finish_session-get deletes m =
      finish_found-get deletes (get R id m)
        (λ gone. ap (λ r. (get R id r.1).0) (get_of_missing m gone) ∙ gone)

  run_call-get :
      Deletes
      → (hs : Handshake) (run : Manager R → Manager R × Bool) (m : Manager R) → hs ≢ other_error
      → (get R id (run_call R hs run id m).0).0 ≡ none
  unfolding run_call
  run_call-get deletes answered run m read = finish_session-get deletes (run m).0
  run_call-get deletes value_error run m read = finish_session-get deletes m
  run_call-get deletes other_error run m read = elim (read refl) [ ]

  -- Refused with nothing changed, where the gateway drains or has no session for the call and does not make
  -- one; or let in, with the count of calls as it was and no session left.
  unfoldable pub IsSettled : Bool → VoiceGateway R → SocketOutcome × VoiceGateway R → Type 0
  IsSettled allow gw (refused code reason, gw') =
      (gw' ≡ gw) × ((gw.draining ≡ true) ⊎ (((get R id gw.sessions).0 ≡ none) × (allow ≡ false)))
  IsSettled allow gw (_, gw') =
      (gw'.active_calls ≡ gw.active_calls) × ((get R id gw'.sessions).0 ≡ none)

  returned-IsSettled :
      (allow returned : Bool) (gw gw' : VoiceGateway R)
      → gw'.active_calls ≡ gw.active_calls
      → (get R id gw'.sessions).0 ≡ none
      → IsSettled allow gw (if returned then served else interrupted, gw')
  unfolding IsSettled
  returned-IsSettled allow true gw gw' count gone = (count, gone)
  returned-IsSettled allow false gw gw' count gone = (count, gone)

  serve-IsSettled :
      Deletes
      → (allow : Bool) (hs : Handshake) (run : Manager R → Manager R × Bool) (m : Manager R)
        (gw : VoiceGateway R)
      → hs ≢ other_error
      → IsSettled allow gw (serve R hs run id (record gw { sessions = m }))
  unfolding serve on_call_started on_call_ended
  serve-IsSettled deletes allow hs run m gw read =
      returned-IsSettled allow (run_call R hs run id m).1 gw
        (record gw {
          sessions = (run_call R hs run id m).0;
          active_calls = (gw.active_calls + 1) - 1;
        })
        (omega arith) (run_call-get deletes hs run m read)

  admit-none :
      (now : ℕ) (allow : Bool) (r : Option Session × Manager R)
      → (admit R now allow id r).0 ≡ none
      → ((admit R now allow id r).1 ≡ r.1) × (r.0 ≡ none) × (allow ≡ false)
  unfolding admit
  admit-none now allow (some s, m) out = cc
  admit-none now true (none, m) out = cc
  admit-none now false (none, m) out = (refl, refl, refl)

  admitted-none :
      (now : ℕ) (allow : Bool) (m : Manager R)
      → (admitted R now allow id m).0 ≡ none
      → ((admitted R now allow id m).1 ≡ m) × ((get R id m).0 ≡ none) × (allow ≡ false)
  unfolding admitted
  admitted-none now allow m out =
      let (same, gone, strict) = admit-none now allow (get R id m) out in
      (same ∙ ap (λ r. r.1) (get_of_missing m gone), gone, strict)

  connect-IsSettled :
      Deletes
      → (allow : Bool) (hs : Handshake) (run : Manager R → Manager R × Bool) (gw : VoiceGateway R)
        (entry : Option (Manager R) × Manager R)
      → hs ≢ other_error
      → (entry.0 ≡ none
          → (entry.1 ≡ gw.sessions) × ((get R id gw.sessions).0 ≡ none) × (allow ≡ false))
      → IsSettled allow gw (connect R hs run id entry gw)
  unfolding connect IsSettled
  connect-IsSettled deletes allow hs run gw (none, m) read out =
      let (same, gone, strict) = out refl in
      (ap (λ sessions. record gw { sessions = sessions }) same, inr (gone, strict))
  connect-IsSettled deletes allow hs run gw (some m, m') read out =
      serve-IsSettled deletes allow hs run m gw read

  gate-IsSettled :
      Deletes
      → (now : ℕ) (allow : Bool) (hs : Handshake) (run : Manager R → Manager R × Bool)
        (gw : VoiceGateway R) (drains : Bool)
      → hs ≢ other_error
      → gw.draining ≡ drains
      → IsSettled allow gw (
          if drains
          then (refused 1013 "server draining for deploy", gw)
          else connect R hs run id (admitted R now allow id gw.sessions) gw)
  unfolding IsSettled
  gate-IsSettled deletes now allow hs run gw true read e = (refl, inl e)
  gate-IsSettled deletes now allow hs run gw false read e =
      connect-IsSettled deletes allow hs run gw (admitted R now allow id gw.sessions) read
        (admitted-none now allow gw.sessions)

  -- Where the handshake is answered or never comes, and every DEL of the call's key goes through, a
  -- connection to the audio stream is refused only while the gateway drains, or where the call has no
  -- session and none may be made, and then nothing is changed; and otherwise, whatever the pipeline does
  -- to the sessions and whether or not it raises, the count of active calls ends as it began and no
  -- session of the call is left in memory or in Redis.
  pub voice_websocket-IsSettled :
      Deletes
      → (now : ℕ) (allow : Bool) (hs : Handshake) (run : Manager R → Manager R × Bool)
        (gw : VoiceGateway R)
      → hs ≢ other_error
      → IsSettled allow gw (voice_websocket R now allow hs run id gw)
  unfolding voice_websocket
  voice_websocket-IsSettled deletes now allow hs run gw read =
      gate-IsSettled deletes now allow hs run gw gw.draining read refl
