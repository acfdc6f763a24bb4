-- ===== src/Calls/Ends.antt =====
-- What a finalization of services/api/src/routers/internal.py makes of the rows of the calls.
use mathlib.Core.Path.{subst}
use ai_calling_agent.Prelude.{
  ap, sym, ◌∙◌, ℕ, ◌≡◌, refl, String, Option, none, some, [], ◌∷◌, inl, inr, arith, Option-cases,
  Bool-cases, eq_iff, ◌==◌,
}
use ai_calling_agent.Prelude.Table.{get, key-get, get-put_self, put}
use ai_calling_agent.Models.{Call, call_key}
use ai_calling_agent.Jobs.Create.{fits}
use ai_calling_agent.Calls.Reasons.{Outcome, EndsAs, outcome_of-EndsAs}
use ai_calling_agent.Calls.Handlers.{
  FinalizeRequest, FinalizeResponse, ok, Calls, finalized, response, finalize_row, finalize_call,
}

-- The two columns of a call that its end sets.
abbrev pub outcome_in : Call → Outcome
outcome_in call = record { status = call.status; connection_status = call.connection_status }

-- What a finalization makes of one row: it stays, or the call of the id had not ended, and now has, at the
-- time and for the reason of the request, as that reason says; the rest of the row stays.
pub data Finalizes (id : String) (body : FinalizeRequest) (old new : Call) : Type 0 where
  kept : new ≡ old → Finalizes id body old new
  ends :
      old.call_id ≡ id
      → old.ended_at ≡ none
      → EndsAs body.end_reason (outcome_in new)
      → new ≡ record old {
        ended_at = some body.ended_at;
        end_reason = some body.end_reason;
        status = new.status;
        connection_status = new.connection_status;
      }
      → Finalizes id body old new

-- Row by row.
abbrev pub AllFinalized : String → FinalizeRequest → Calls → Calls → Type 0
AllFinalized id body [] [] = Unit
AllFinalized id body [] (new ∷ news) = ⊥
AllFinalized id body (old ∷ olds) [] = ⊥
AllFinalized id body (old ∷ olds) (new ∷ news) =
    Finalizes id body old new × AllFinalized id body olds news

all-kept : (id : String) (body : FinalizeRequest) (calls : Calls) → AllFinalized id body calls calls
all-kept id body [] = tt
all-kept id body (call ∷ calls) = (kept refl, all-kept id body calls)

finalized-ends :
    (id : String) (body : FinalizeRequest) (call : Call)
    → call.call_id ≡ id
    → call.ended_at ≡ none
    → Finalizes id body call (finalized body call)
unfolding finalized
finalized-ends id body call same live_row =
    ends same live_row (outcome_of-EndsAs body.end_reason) refl

put-AllFinalized :
    (id : String) (body : FinalizeRequest) (call : Call) (calls : Calls)
    → get call_key id calls ≡ some call
    → call.ended_at ≡ none
    → AllFinalized id body calls (put call_key id (finalized body call) calls)
unfolding get put
put-AllFinalized id body call [] found live_row = cc
put-AllFinalized id body call (x ∷ xs) found live_row = elim (Bool-cases (x.call_id == id)) [
  | inl e ↦
      let found' : some x ≡ some call = rw e at found in
      let same : x ≡ call = cc found' in
      rw e (
        subst (λ c. Finalizes id body x (finalized body c)) same
            (finalized-ends id body x ((eq_iff x.call_id id).0 e)
              (ap (λ (c : Call). c.ended_at) same ∙ live_row)),
        all-kept id body xs,
      )
  | inr n ↦
      let found' : get call_key id xs ≡ some call = rw n at found in
      rw n (kept refl, put-AllFinalized id body call xs found' live_row)
]

finalize_row-AllFinalized :
    (at : Option ℕ) (body : FinalizeRequest) (id : String) (call : Call) (calls : Calls)
    → get call_key id calls ≡ some call
    → call.ended_at ≡ at
    → call.call_id ≡ id
    → AllFinalized id body calls (finalize_row at body call calls).1
unfolding finalize_row
finalize_row-AllFinalized (some at) body id call calls found e same = all-kept id body calls
finalize_row-AllFinalized none body id call calls found e same =
    elim (Bool-cases (fits 100 (some body.end_reason))) [
      | inl y ↦ rw y (
          subst (λ k. AllFinalized id body calls (put call_key k (finalized body call) calls))
            (sym same) (put-AllFinalized id body call calls found e))
      | inr n ↦ rw n (all-kept id body calls)
    ]

pub finalize_call-AllFinalized :
    (id : String) (body : FinalizeRequest) (calls : Calls)
    → AllFinalized id body calls (finalize_call id body calls).1
unfolding finalize_call
finalize_call-AllFinalized id body calls = elim (Option-cases (get call_key id calls)) [
  | inl e ↦ rw (e, finalize_call) (all-kept id body calls)
  | inr (call, e) ↦
      rw (e, finalize_call)
        (finalize_row-AllFinalized call.ended_at body id call calls e refl
          (key-get call_key id calls call e))
]

-- A finalization that is answered `ok` leaves the call ended.
pub finalize_call-ended :
    (id : String) (body : FinalizeRequest) (calls calls' : Calls) (answer : FinalizeResponse)
    → finalize_call id body calls ≡ (ok answer, calls')
    → (call : Call) × (get call_key id calls' ≡ some call) × (call.ended_at ≡ some answer.ended_at)
unfolding finalize_call finalize_row finalized response
finalize_call-ended id body calls calls' answer e = elim (Option-cases (get call_key id calls)) [
  | inl missing ↦ ground arith
  | inr (call, found) ↦ elim (Option-cases call.ended_at) [
    | inr (at, f) ↦ (call, ground arith, ground arith)
    | inl f ↦ (
      finalized body call,
      ground (
        arith,
        key-get call_key id calls call found,
        get-put_self call_key call.call_id (finalized body call) calls call refl,
      ),
      ground arith,
    )
  ]
]
