-- ===== src/Calls/Lifecycle.antt =====
-- The life of a call record under the requests of services/api/src/routers/internal.py.
use ai_calling_agent.Prelude.{
  ℕ, ◌≡◌, refl, String, Bool, true, false, Option, none, some, [], ◌∷◌, inl, inr, arith, All,
  All-append, Option-cases, Bool-cases, eq_refl, eq_iff, if◌then◌else◌, ◌==◌,
}
use ai_calling_agent.Prelude.Table.{get, put-All, get-put_self, key-get, get-append, get-put_ne}
use ai_calling_agent.Models.{Call, call_key, active, connected}
use ai_calling_agent.Jobs.Create.{fits}
use ai_calling_agent.Calls.Reasons.{EndsAs, outcome_of-EndsAs}
use ai_calling_agent.Calls.Ends.{outcome_in, AllFinalized, finalize_call-AllFinalized}
use ai_calling_agent.Calls.Handlers.{
  CallCreateRequest, FinalizeRequest, FinalizeResponse, ok, raised, already_exists, Calls, new_call,
  create_call, get_call, finalized, response, finalize_row, finalize_call,
}

-- What the stored state of a call says together: a live call has no end and no reason and is active
-- and connected; an ended call has a reason, and ended as that reason says.
pub data IsConsistent (call : Call) : Type 0 where
  live :
      call.ended_at ≡ none
      → call.end_reason ≡ none
      → call.status ≡ active
      → call.connection_status ≡ connected
      → IsConsistent call
  ended :
      (at : ℕ) (reason : String)
      → call.ended_at ≡ some at
      → call.end_reason ≡ some reason
      → EndsAs reason (outcome_in call)
      → IsConsistent call

finalized-IsConsistent : (body : FinalizeRequest) (call : Call) → IsConsistent (finalized body call)
unfolding finalized
finalized-IsConsistent body call =
    ended body.ended_at body.end_reason refl refl (outcome_of-EndsAs body.end_reason)

-- Creating a call keeps every record consistent.
pub create_call-IsConsistent :
    (now : ℕ) (body : CallCreateRequest) (calls : Calls)
    → All IsConsistent calls
    → All IsConsistent (create_call now body calls).1
unfolding create_call
create_call-IsConsistent now body calls v =
    ground (
      arith,
      All-append IsConsistent calls (new_call now body ∷ []) v (live refl refl refl refl, tt),
    )

finalize_row-IsConsistent :
    (at : Option ℕ) (body : FinalizeRequest) (call : Call) (calls : Calls)
    → All IsConsistent calls
    → All IsConsistent (finalize_row at body call calls).1
unfolding finalize_row
finalize_row-IsConsistent (some at) body call calls v = v
finalize_row-IsConsistent none body call calls v = ground (
  arith,
  put-All call_key IsConsistent call.call_id (finalized body call) calls
      (finalized-IsConsistent body call) v,
)

-- A finalization keeps every record consistent: a live call has no end, an ended one has the status and the
-- connection that its reason means, as the comments of the map say it. And each row stays as it was, or is
-- the row of the request's id, had not ended, and has now ended at the time and for the reason of the
-- request, with nothing else changed.
pub finalize_call-IsConsistent :
    (id : String) (body : FinalizeRequest) (calls : Calls)
    → All IsConsistent calls
    → All IsConsistent (finalize_call id body calls).1
      × AllFinalized id body calls (finalize_call id body calls).1
unfolding finalize_call
finalize_call-IsConsistent id body calls v = (
  elim (Option-cases (get call_key id calls)) [
    | inl e ↦ ground arith
    | inr (call, e) ↦ ground (arith, finalize_row-IsConsistent call.ended_at body call calls v)
  ],
  finalize_call-AllFinalized id body calls,
)

-- Finalizing a call again, with whatever reason and time, answers what the first answer said and
-- changes nothing.
pub finalize_call-finalize_call :
    (id : String) (body body' : FinalizeRequest) (calls calls' : Calls) (answer : FinalizeResponse)
    → finalize_call id body calls ≡ (ok answer, calls')
    → finalize_call id body' calls' ≡ (ok answer, calls')
unfolding finalize_call finalize_row finalized response
finalize_call-finalize_call id body body' calls calls' answer e =
    elim (Option-cases (get call_key id calls)) [
      | inl missing ↦ ground arith
      | inr (call, found) ↦ ground (
        arith,
        key-get call_key id calls call found,
        get-put_self call_key call.call_id (finalized body call) calls call refl,
      )
    ]

-- The row of a call after a finalization, of this call or of another.
call_after : Bool → FinalizeRequest → Option ℕ → Call → Call
unfolding fits
call_after false body at call = call
call_after true body (some at) call = call
call_after true body none call =
    if fits 100 (some body.end_reason) then finalized body call else call

get-finalize_row :
    (body : FinalizeRequest) (at : Option ℕ) (calls : Calls) (call : Call)
    → get call_key call.call_id calls ≡ some call
    → get call_key call.call_id (finalize_row at body call calls).1
      ≡ some (call_after true body at call)
unfolding finalize_row call_after finalized
get-finalize_row body (some at) calls call found = found
get-finalize_row body none calls call found =
    ground (arith, get-put_self call_key call.call_id (finalized body call) calls call refl found)

get-finalize_row_ne :
    (j : String) (body : FinalizeRequest) (at : Option ℕ) (calls : Calls) (call : Call)
    → (call.call_id == j) ≡ false
    → get call_key j (finalize_row at body call calls).1 ≡ get call_key j calls
unfolding finalize_row finalized
get-finalize_row_ne j body (some at) calls call n = refl
get-finalize_row_ne j body none calls call n =
    ground (arith, get-put_ne call_key call.call_id j (finalized body call) calls refl n)

get-finalize_call :
    (id j : String) (body : FinalizeRequest) (calls : Calls) (call : Call)
    → get call_key j calls ≡ some call
    → get call_key j (finalize_call id body calls).1
      ≡ some (call_after (id == j) body call.ended_at call)
unfolding finalize_call call_after
get-finalize_call id j body calls call found = elim (Bool-cases (id == j)) [
  | inl e ↦ ground (
    arith,
    eq_iff id j,
    key-get call_key j calls call found,
    get-finalize_row body call.ended_at calls call,
  )
  | inr n ↦ elim (Option-cases (get call_key id calls)) [
    | inl missing ↦ ground arith
    | inr (other, hit) ↦ ground (
      arith,
      key-get call_key id calls other hit,
      get-finalize_row_ne j body other.ended_at calls other,
    )
  ]
]

-- A finalized call keeps its parties, its start and its simulation mark, and every other call keeps
-- its whole record.
pub finalize_call-keeps :
    (id j : String) (body : FinalizeRequest) (calls : Calls) (call : Call)
    → get call_key j calls ≡ some call
    → (after : Call) × (get call_key j (finalize_call id body calls).1 ≡ some after)
      × (after.is_simulation ≡ call.is_simulation)
      × (after.tenant_id ≡ call.tenant_id)
      × (after.agent_id ≡ call.agent_id)
      × (after.provider_call_id ≡ call.provider_call_id)
      × (after.started_at ≡ call.started_at)
      × ((id == j) ≡ false → after ≡ call)
unfolding call_after finalized
finalize_call-keeps id j body calls call found = (
  call_after (id == j) body call.ended_at call,
  get-finalize_call id j body calls call found,
  ground arith,
  ground arith,
  ground arith,
  ground arith,
  ground arith,
  λ n. ground arith,
)

get_new :
    (body : CallCreateRequest) (now : ℕ)
    → get call_key body.call_id (new_call now body ∷ []) ≡ some (new_call now body)
unfolding get new_call
get_new body now = rw (eq_refl body.call_id)

-- A call that is created can be read back as it was sent, active and connected, and its id cannot be
-- used for another call.
pub create_call-created :
    (now now' : ℕ) (body body' : CallCreateRequest) (calls calls' : Calls) (call : Call)
    → create_call now body calls ≡ (ok call, calls')
    → body'.call_id ≡ body.call_id
    → (get_call body.call_id calls' ≡ ok call)
      × (call ≡ new_call now body)
      × (create_call now' body' calls' ≡ (raised already_exists, calls'))
unfolding create_call get_call
create_call-created now now' body body' calls calls' call e same =
    ground
      (arith, get-append call_key body.call_id calls (new_call now body ∷ []), get_new body now)
