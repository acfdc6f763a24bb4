-- ===== src/Calls/Reasons.antt =====
-- How a call ended: `_END_REASON_MAP` of services/api/src/routers/internal.py, and its fallback.
use ai_calling_agent.Prelude.{
  ◌≡◌, String, Bool, true, false, ◌==◌, Option, none, some, List, [], ◌∷◌, arith, if◌then◌else◌,
  refl, one_of, eq_iff, inl, inr, Bool-cases,
}
use mathlib.Core.Path.{subst}
use ai_calling_agent.Models.{
  CallStatus, completed, failed, no_answer, voicemail, cancelled, ConnectionStatus, not_attempted,
  attempted, connected, failed_pre_connect,
}

pub record Outcome : Type 0 where
  pub status : CallStatus
  pub connection_status : ConnectionStatus

abbrev outcome : CallStatus → ConnectionStatus → Outcome
outcome s c = record { status = s; connection_status = c }

-- _END_REASON_MAP
abbrev pub end_reason_map : List (String × Outcome)
end_reason_map =
    ("caller_hangup", outcome completed connected)
    ∷ ("agent_finished", outcome completed connected)
    ∷ ("no_answer", outcome no_answer attempted)
    ∷ ("voicemail", outcome voicemail attempted)
    ∷ ("invalid_number", outcome failed failed_pre_connect)
    ∷ ("network_error", outcome failed failed_pre_connect)
    ∷ ("provider_failure", outcome failed failed_pre_connect)
    ∷ ("cancelled", outcome cancelled not_attempted)
    ∷ ("simulation_complete", outcome completed connected)
    ∷ ("simulation_cancelled", outcome cancelled not_attempted)
    ∷ ("simulation_no_answer", outcome no_answer attempted)
    ∷ []

unfoldable pub lookup_reason : String → List (String × Outcome) → Option Outcome
lookup_reason reason [] = none
lookup_reason reason ((k, o) ∷ m) = if k == reason then some o else lookup_reason reason m

unfoldable pub or_failed : Option Outcome → Outcome
or_failed none = outcome failed failed_pre_connect
or_failed (some o) = o

-- The pair that `finalize_call` writes for a reason.
unfoldable pub outcome_of : String → Outcome
unfolding or_failed
outcome_of reason = or_failed (lookup_reason reason end_reason_map)

-- The pairs that agree: completed calls, and they alone, were connected; calls that nobody answered or
-- that reached voicemail were attempted; failed ones failed before the connection; cancelled ones were
-- not attempted; none is active.
unfoldable pub is_coherent : CallStatus → ConnectionStatus → Bool
is_coherent completed connected = true
is_coherent failed failed_pre_connect = true
is_coherent no_answer attempted = true
is_coherent voicemail attempted = true
is_coherent cancelled not_attempted = true
is_coherent _ _ = false

-- Every reason, known or not, ends a call in a coherent pair that is not `active`.
pub outcome_of-is_coherent :
    (reason : String)
    → is_coherent (outcome_of reason).status (outcome_of reason).connection_status ≡ true
unfolding outcome_of lookup_reason is_coherent
outcome_of-is_coherent reason = ground arith

-- What an end reason says of a call, in the words of the comments beside the map: a conversation that ended,
-- nobody who answered, a voicemail, a call cancelled before it was placed; anything else is a failure.
pub data EndsAs (reason : String) (o : Outcome) : Type 0 where
  conversation :
      one_of reason ("caller_hangup" ∷ "agent_finished" ∷ "simulation_complete" ∷ []) ≡ true
      → o.status ≡ completed
      → o.connection_status ≡ connected
      → EndsAs reason o
  unanswered :
      one_of reason ("no_answer" ∷ "simulation_no_answer" ∷ []) ≡ true
      → o.status ≡ no_answer
      → o.connection_status ≡ attempted
      → EndsAs reason o
  machine :
      reason ≡ "voicemail"
      → o.status ≡ voicemail
      → o.connection_status ≡ attempted
      → EndsAs reason o
  withdrawn :
      one_of reason ("cancelled" ∷ "simulation_cancelled" ∷ []) ≡ true
      → o.status ≡ cancelled
      → o.connection_status ≡ not_attempted
      → EndsAs reason o
  failure :
      one_of reason (
          "caller_hangup" ∷ "agent_finished" ∷ "simulation_complete" ∷ "no_answer"
          ∷ "simulation_no_answer" ∷ "voicemail" ∷ "cancelled" ∷ "simulation_cancelled" ∷ [])
        ≡ false
      → o.status ≡ failed
      → o.connection_status ≡ failed_pre_connect
      → EndsAs reason o

at_reason :
    (k reason : String)
    → EndsAs k (outcome_of k)
    → (k == reason) ≡ true
    → EndsAs reason (outcome_of reason)
at_reason k reason h e = subst (λ r. EndsAs r (outcome_of r)) ((eq_iff k reason).0 e) h

eq_swap : (a b : String) → (a == b) ≡ false → (b == a) ≡ false
eq_swap a b n = ground (arith, eq_iff a b, eq_iff b a)

rest_of_reasons :
    (reason : String)
    → ("caller_hangup" == reason) ≡ false
    → ("agent_finished" == reason) ≡ false
    → ("simulation_complete" == reason) ≡ false
    → ("no_answer" == reason) ≡ false
    → ("simulation_no_answer" == reason) ≡ false
    → ("voicemail" == reason) ≡ false
    → ("cancelled" == reason) ≡ false
    → ("simulation_cancelled" == reason) ≡ false
    → one_of reason (
        "caller_hangup" ∷ "agent_finished" ∷ "simulation_complete" ∷ "no_answer"
        ∷ "simulation_no_answer" ∷ "voicemail" ∷ "cancelled" ∷ "simulation_cancelled" ∷ [])
      ≡ false
unfolding one_of
rest_of_reasons reason a b c d e f g h =
    rw
      (
        eq_swap _ _ a,
        eq_swap _ _ b,
        eq_swap _ _ c,
        eq_swap _ _ d,
        eq_swap _ _ e,
        eq_swap _ _ f,
        eq_swap _ _ g,
        eq_swap _ _ h,
      )
      refl

-- The map gives every reason the outcome that it says.
pub outcome_of-EndsAs : (reason : String) → EndsAs reason (outcome_of reason)
unfolding outcome_of lookup_reason one_of
outcome_of-EndsAs reason = elim (Bool-cases ("caller_hangup" == reason)) [
  | inl e ↦ at_reason "caller_hangup" reason (conversation refl refl refl) e
  | inr a ↦ elim (Bool-cases ("agent_finished" == reason)) [
    | inl e ↦ at_reason "agent_finished" reason (conversation refl refl refl) e
    | inr b ↦ elim (Bool-cases ("no_answer" == reason)) [
      | inl e ↦ at_reason "no_answer" reason (unanswered refl refl refl) e
      | inr c ↦ elim (Bool-cases ("voicemail" == reason)) [
        | inl e ↦ at_reason "voicemail" reason (machine refl refl refl) e
        | inr d ↦ elim (Bool-cases ("cancelled" == reason)) [
          | inl e ↦ at_reason "cancelled" reason (withdrawn refl refl refl) e
          | inr f ↦ elim (Bool-cases ("simulation_complete" == reason)) [
            | inl e ↦ at_reason "simulation_complete" reason (conversation refl refl refl) e
            | inr g ↦ elim (Bool-cases ("simulation_cancelled" == reason)) [
              | inl e ↦ at_reason "simulation_cancelled" reason (withdrawn refl refl refl) e
              | inr h ↦ elim (Bool-cases ("simulation_no_answer" == reason)) [
                | inl e ↦ at_reason "simulation_no_answer" reason (unanswered refl refl refl) e
                | inr i ↦
                    failure (rest_of_reasons reason a b g c i d f h) (ground arith) (ground arith)
              ]
            ]
          ]
        ]
      ]
    ]
  ]
]
