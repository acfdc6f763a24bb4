-- ===== src/Prelude/Table.antt =====
-- A database table as the list of its rows, with a text column for its primary key. The key makes
-- the row of a key unique, so a statement `WHERE key = k` acts at the first match.
use Prim.Native.String.{String}
use text.Mathlib.Text.{◌==◌}
use text.Mathlib.TextEquality.{eq_iff}
use mathlib.Core.Path.{◌≡◌, refl}
use mathlib.Core.Logic.{inl, inr}
use mathlib.Core.Bool.{Bool, true, false, ◌&&◌}
use mathlib.Core.Option.{Option, none, some}
use mathlib.Core.List.{List, [], ◌∷◌, ◌++◌}
use native.Mathlib.Omega.{arith}
use ai_calling_agent.Prelude.Tests.{if◌then◌else◌, Bool-cases, Option-cases}
use ai_calling_agent.Prelude.Lists.{All}

module _ {ℓ} {A : Type ℓ} (key : A → String) where
  -- SELECT … WHERE key = k, db.get(Row, k)
  unfoldable pub get : String → List A → Option A
  get k [] = none
  get k (r ∷ t) = if key r == k then some r else get k t

  -- Writes the row of key `k`.
  unfoldable pub put : String → A → List A → List A
  put k v [] = []
  put k v (r ∷ t) = if key r == k then v ∷ t else r ∷ put k v t

  -- UPDATE … WHERE key = k AND guard RETURNING *: the new row and the new table, or no row.
  unfoldable pub update : String → (A → Bool) → (A → A) → List A → Option (A × List A)
  update k guard f t = elim (get k t) [
    | none ↦ none
    | some r ↦ if guard r then some (f r, put k (f r) t) else none
  ]

  -- No two rows have one key.
  abbrev pub IsKeyed : List A → Type ℓ
  IsKeyed [] = Unit
  IsKeyed (r ∷ t) = (get (key r) t ≡ none) × IsKeyed t

  pub key-get : (k : String) (t : List A) (r : A) → get k t ≡ some r → key r ≡ k
  unfolding get
  key-get k [] r e = ground arith
  key-get k (x ∷ t) r e = ground (arith, eq_iff (key x) k, key-get k t r)

  pub get-put_self :
      (k : String) (v : A) (t : List A) (r : A)
      → key v ≡ k
      → get k t ≡ some r
      → get k (put k v t) ≡ some v
  unfolding get put
  get-put_self k v [] r h e = ground arith
  get-put_self k v (x ∷ t) r h e = ground (arith, eq_iff (key v) k, get-put_self k v t r)

  pub get-put_ne :
      (k j : String) (v : A) (t : List A)
      → key v ≡ k
      → (k == j) ≡ false
      → get j (put k v t) ≡ get j t
  unfolding get put
  get-put_ne k j v [] h n = refl
  get-put_ne k j v (x ∷ t) h n =
      ground (arith, eq_iff (key x) k, eq_iff (key x) j, eq_iff (key v) j, get-put_ne k j v t h n)

  pub get-append :
      (k : String) (t u : List A)
      → get k (t ++ u) ≡ (elim (get k t) [ none ↦ get k u | some r ↦ some r ])
  unfolding get
  get-append k [] u = refl
  get-append k (x ∷ t) u = ground (arith, get-append k t u)

  pub put-IsKeyed : (k : String) (v : A) (t : List A) → key v ≡ k → IsKeyed t → IsKeyed (put k v t)
  unfolding get put
  put-IsKeyed k v [] h u = tt
  put-IsKeyed k v (x ∷ t) h u =
      ground
        (arith, eq_iff (key x) k, eq_iff k (key x), get-put_ne k (key x) v t h, put-IsKeyed k v t h)

  pub append-IsKeyed :
      (t : List A) (r : A) → get (key r) t ≡ none → IsKeyed t → IsKeyed (t ++ r ∷ [])
  unfolding get
  append-IsKeyed [] r h u = (refl, tt)
  append-IsKeyed (x ∷ t) r h u = ground (
    arith,
    eq_iff (key x) (key r),
    eq_iff (key r) (key x),
    get-append (key x) t (r ∷ []),
    append-IsKeyed t r,
  )

module _ {ℓ} {A : Type ℓ} (key : A → String) where
  -- What a successful UPDATE found, wrote and left.
  pub update-eq-some :
      (k : String) (guard : A → Bool) (f : A → A) (t : List A) (v : A) (t' : List A)
      → update key k guard f t ≡ some (v, t')
      → (r : A) × (get key k t ≡ some r) × (guard r ≡ true) × (v ≡ f r) × (t' ≡ put key k (f r) t)
  unfolding update
  update-eq-some k guard f t v t' e = elim (Option-cases (get key k t)) [
    | inl missing ↦ ground arith
    | inr (r, found) ↦ (r, found, ground arith, ground arith, ground arith)
  ]

  -- An UPDATE matches no row exactly where the row is missing or the guard fails.
  pub update_of_guard :
      (k : String) (guard : A → Bool) (f : A → A) (t : List A) (r : A)
      → get key k t ≡ some r
      → update key k guard f t ≡ (if guard r then some (f r, put key k (f r) t) else none)
  unfolding update
  update_of_guard k guard f t r e = ground arith

  pub update_of_missing :
      (k : String) (guard : A → Bool) (f : A → A) (t : List A)
      → get key k t ≡ none
      → update key k guard f t ≡ none
  unfolding update
  update_of_missing k guard f t e = ground arith

module _ {ℓ κ} {A : Type ℓ} (key : A → String) (P : A → Type κ) where
  pub get-All : (k : String) (t : List A) (r : A) → All P t → get key k t ≡ some r → P r
  unfolding get
  get-All k [] r h e = ground arith
  get-All k (x ∷ t) r h e = ground (arith, get-All k t r h.1)

  pub put-All : (k : String) (v : A) (t : List A) → P v → All P t → All P (put key k v t)
  unfolding put
  put-All k v [] p h = tt
  put-All k v (x ∷ t) p h = ground (arith, put-All k v t p h.1)

  -- A written row satisfies what the statement establishes from the row that it found.
  pub update-All :
      (k : String) (guard : A → Bool) (f : A → A) (t : List A) (v : A) (t' : List A)
      → ((r : A) → get key k t ≡ some r → guard r ≡ true → P r → P (f r))
      → All P t
      → update key k guard f t ≡ some (v, t')
      → P v × All P t'
  unfolding update
  update-All k guard f t v t' keep h e = elim (Option-cases (get key k t)) [
    | inl none_found ↦ ground arith
    | inr (r, found) ↦ ground (arith, keep r found, get-All k t r h, put-All k (f r) t)
  ]

module _ {ℓ} {A : Type ℓ} (key : A → String) where
  -- The table after a statement that may match no row.
  abbrev pub after : Option (A × List A) → List A → List A
  after none t = t
  after (some (v, t')) t = t'

  -- A statement for key `k` shows at key `j` exactly where the keys agree and the guard holds.
  pub get-update :
      (k j : String) (guard : A → Bool) (f : A → A) (t : List A) (r : A)
      → ((x : A) → key (f x) ≡ key x)
      → get key j t ≡ some r
      → get key j (after (update key k guard f t) t) ≡ some (if k == j && guard r then f r else r)
  unfolding update
  get-update k j guard f t r same found = elim (Bool-cases (k == j)) [
    | inl e ↦
        let k-eq-j : k ≡ j = (eq_iff k j).0 e in
        ground (arith, get-put_self key k (f r) t r, key-get key j t r found, eq_iff k j, same r)
    | inr n ↦ elim (Option-cases (get key k t)) [
      | inl missing ↦ ground arith
      | inr (x, hit) ↦ ground (arith, get-put_ne key k j (f x) t, key-get key k t x hit, same x)
    ]
  ]
