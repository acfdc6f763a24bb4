-- ===== src/Gateway/Turns.antt =====
-- The life of a session of services/voice-gateway/src/main.py, with Redis up or down.
use ai_calling_agent.Prelude.{
  ℕ, ◌≡◌, refl, String, ◌==◌, false, Option, none, some, List, [], ◌∷◌, ◌++◌, arith, ◌⊎◌, inl, inr,
  Option-cases, eq_refl, ◌∙◌, sym, ap,
}
use mathlib.Core.List.{append_assoc, append-nil}
use ai_calling_agent.Prelude.Dict.{Dict, lookup, lookup-insert, lookup-remove}
use ai_calling_agent.Gateway.Redis.{Redis}
use ai_calling_agent.Gateway.Sessions.{
  ended, Turn, Session, Manager, new_session, set_quietly, delete_quietly, read_quietly, create,
  load, get, end_in_memory, end_in_redis, end, discard, append_turn, add_turn,
}

module _ (R : Redis Session) where
  pub get_in_memory :
      (id : String) (s : Session) (m : Manager R)
      → lookup id m.mem ≡ some s
      → get R id m ≡ (some s, m)
  unfolding get
  get_in_memory id s m found = rw (found, get) refl

  -- One `add_turn` for each turn in order.
  unfoldable pub add_turns : String → List Turn → Manager R → Manager R
  add_turns id [] m = m
  add_turns id (t ∷ ts) m = add_turns id ts (add_turn R t.at id t.role t.text m)

  pub add_turn_in_memory :
      (now : ℕ) (id role text : String) (s : Session) (m : Manager R)
      → lookup id m.mem ≡ some s
      → lookup id (add_turn R now id role text m).mem
        ≡ some (record s { turns = s.turns ++ record { role = role; text = text; at = now } ∷ [] })
  unfolding add_turn append_turn get
  add_turn_in_memory now id role text s m found = ground (
    arith,
    lookup-insert id id
        (record s { turns = s.turns ++ record { role = role; text = text; at = now } ∷ [] }) m.mem,
    eq_refl id,
  )

  add_turns_in_memory :
      (id : String) (ts : List Turn) (s : Session) (m : Manager R)
      → lookup id m.mem ≡ some s
      → lookup id (add_turns id ts m).mem ≡ some (record s { turns = s.turns ++ ts })
  unfolding add_turns
  add_turns_in_memory id [] s m found =
      found ∙ ap (λ ts. some (record s { turns = ts })) (sym (append-nil s.turns))
  add_turns_in_memory id (t ∷ ts) s m found =
      add_turns_in_memory id ts (record s { turns = s.turns ++ t ∷ [] })
        (add_turn R t.at id t.role t.text m) (add_turn_in_memory t.at id t.role t.text s m found)
      ∙ ap (λ ts. some (record s { turns = ts })) (append_assoc s.turns (t ∷ []) ts)

  -- A session that is created and given turns is read back active, with its ids and all the turns in
  -- order, whether Redis is there, fails or is not configured.
  pub get-add_turns :
      (now : ℕ) (id tenant_id agent_id : String) (ts : List Turn) (m : Manager R)
      → (get R id (add_turns id ts (create R now id tenant_id agent_id m))).0
        ≡ some (record (new_session now id tenant_id agent_id) { turns = ts })
  unfolding create new_session
  get-add_turns now id tenant_id agent_id ts m =
      ap (λ r. r.0)
        (get_in_memory id (record (new_session now id tenant_id agent_id) { turns = ts })
          (add_turns id ts (create R now id tenant_id agent_id m))
          (add_turns_in_memory id ts (new_session now id tenant_id agent_id)
            (create R now id tenant_id agent_id m)
            (lookup-insert id id (new_session now id tenant_id agent_id) m.mem
              ∙ rw (eq_refl id) refl)))

  pub get-create :
      (now : ℕ) (id tenant_id agent_id : String) (m : Manager R)
      → (get R id (create R now id tenant_id agent_id m)).0
        ≡ some (new_session now id tenant_id agent_id)
  unfolding add_turns new_session
  get-create now id tenant_id agent_id m = get-add_turns now id tenant_id agent_id [] m

  -- Ending a session that is in memory keeps everything of it but its status, which is then ended.
  pub get-end :
      (id : String) (s : Session) (m : Manager R)
      → lookup id m.mem ≡ some s
      → (get R id (end R id m)).0 ≡ some (record s { status = ended })
  unfolding end end_in_memory get
  get-end id s m found =
      ground (arith, lookup-insert id id (record s { status = ended }) m.mem, eq_refl id)

  -- After a session is removed it is not found again, where Redis is not configured or its DEL went
  -- through: neither memory nor Redis brings it back.
  pub get-discard :
      (id : String) (m : Manager R)
      → (m.redis ≡ none)
        ⊎ ((s : R.Store) × (s' : R.Store) × (m.redis ≡ some s) × (R.delete id s ≡ some s'))
      → (get R id (discard R id m)).0 ≡ none
  unfolding discard get delete_quietly read_quietly load
  get-discard id m (inl off) = ground (arith, lookup-remove id id m.mem, eq_refl id)
  get-discard id m (inr (s, s', on, gone)) = elim (Option-cases (R.get id s')) [
    | inl down ↦ ground (arith, lookup-remove id id m.mem, eq_refl id)
    | inr (x, up) ↦
        ground (arith, lookup-remove id id m.mem, eq_refl id, R.get-delete_self id s s' x gone up)
  ]

  read-set_quietly :
      (id j : String) (v : Session) (r : Option R.Store)
      → (id == j) ≡ false
      → read_quietly R j (set_quietly R id v r) ≡ read_quietly R j r
  unfolding set_quietly read_quietly
  read-set_quietly id j v none n = refl
  read-set_quietly id j v (some s) n = elim (Option-cases (R.set id v s)) [
    | inl down ↦ ground arith
    | inr (s', up) ↦ ground (arith, R.get-set_ne id j v s s' up n)
  ]

  read-delete_quietly :
      (id j : String) (r : Option R.Store)
      → (id == j) ≡ false
      → read_quietly R j (delete_quietly R id r) ≡ read_quietly R j r
  unfolding delete_quietly read_quietly
  read-delete_quietly id j none n = refl
  read-delete_quietly id j (some s) n = elim (Option-cases (R.delete id s)) [
    | inl down ↦ ground arith
    | inr (s', up) ↦ ground (arith, R.get-delete_ne id j s s' up n)
  ]

  read-end_in_redis :
      (id j : String) (r : Option R.Store)
      → (id == j) ≡ false
      → read_quietly R j (end_in_redis R id r) ≡ read_quietly R j r
  unfolding end_in_redis
  read-end_in_redis id j r n = elim (Option-cases (read_quietly R id r)) [
    | inl e ↦ ground arith
    | inr (s, e) ↦ ground (arith, read-set_quietly id j (record s { status = ended }) r n)
  ]

  -- What `get` finds depends on memory and Redis at its key only.
  get_of_same :
      (j : String) (m m' : Manager R)
      → lookup j m.mem ≡ lookup j m'.mem
      → read_quietly R j m.redis ≡ read_quietly R j m'.redis
      → (get R j m).0 ≡ (get R j m').0
  unfolding get load
  get_of_same j m m' same_mem same_redis = elim (Option-cases (lookup j m.mem)) [
    | inl e ↦ elim (Option-cases (read_quietly R j m.redis)) [
      | inl f ↦ ground arith
      | inr (x, f) ↦ ground arith
    ]
    | inr (s, e) ↦ ground arith
  ]

  lookup-end_in_memory_ne :
      (id j : String) (d : Dict Session)
      → (id == j) ≡ false
      → lookup j (end_in_memory R id d) ≡ lookup j d
  unfolding end_in_memory
  lookup-end_in_memory_ne id j d n = elim (Option-cases (lookup id d)) [
    | inl e ↦ ground arith
    | inr (s, e) ↦ ground (arith, lookup-insert id j (record s { status = ended }) d)
  ]

  -- Creating, ending or removing one session leaves what is read of another as it was.
  pub get_of_other :
      (now : ℕ) (id j tenant_id agent_id : String) (m : Manager R)
      → (id == j) ≡ false
      → ((get R j (create R now id tenant_id agent_id m)).0 ≡ (get R j m).0)
        × ((get R j (end R id m)).0 ≡ (get R j m).0)
        × ((get R j (discard R id m)).0 ≡ (get R j m).0)
  unfolding create discard end
  get_of_other now id j tenant_id agent_id m n = (
    get_of_same j (create R now id tenant_id agent_id m) m
        (lookup-insert id j (new_session now id tenant_id agent_id) m.mem ∙ rw n refl)
        (read-set_quietly id j (new_session now id tenant_id agent_id) m.redis n),
    get_of_same j (end R id m) m (lookup-end_in_memory_ne id j m.mem n)
        (read-end_in_redis id j m.redis n),
    get_of_same j (discard R id m) m (lookup-remove id j m.mem ∙ rw n refl)
        (read-delete_quietly id j m.redis n),
  )
