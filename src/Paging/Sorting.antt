-- ===== src/Paging/Sorting.antt =====
-- The order of a listing (ORDER BY created_at DESC in services/api/src/routers/client.py): where no two
-- rows have one time, there is one such order, whatever the database does. `sorted` is a sort that has it.
use mathlib.Core.List.Permᴰ
use mathlib.Core.List.{Permᴰ}
use mathlib.Core.Path.{subst}
use ai_calling_agent.Prelude.{
  ℕ, ◌≤◌, ◌≡◌, ◌≢◌, refl, sym, ap, ◌∙◌, List, [], ◌∷◌, arith, leb, if◌then◌else◌, All, Bool-cases,
  Bool, select, inl, inr,
}
use ai_calling_agent.Prelude.Rows.{All-select}
use ai_calling_agent.Paging.{IsNewestFirst, NewestFirst, All-perm}

module _ {A : Type 0} (at : A → ℕ) where
  unfoldable pub insert_newest : A → List A → List A
  insert_newest x [] = x ∷ []
  insert_newest x (y ∷ ys) = if leb (at y) (at x) then x ∷ y ∷ ys else y ∷ insert_newest x ys

  unfoldable pub sorted : List A → List A
  unfolding insert_newest
  sorted [] = []
  sorted (x ∷ xs) = insert_newest x (sorted xs)

  -- No two rows have one time.
  abbrev pub HasDistinctTimes : List A → Type 0
  HasDistinctTimes [] = Unit
  HasDistinctTimes (x ∷ xs) = All (λ y. at x ≢ at y) xs × HasDistinctTimes xs

  insert_newest-perm : (x : A) (xs : List A) → Permᴰ (insert_newest x xs) (x ∷ xs)
  unfolding insert_newest
  insert_newest-perm x [] = Permᴰ.refl (x ∷ [])
  insert_newest-perm x (y ∷ ys) = elim (Bool-cases (leb (at y) (at x))) [
    | inl e ↦ rw e (Permᴰ.refl (x ∷ y ∷ ys))
    | inr e ↦ rw e (Permᴰ.trans (Permᴰ.cons refl (insert_newest-perm x ys)) (Permᴰ.swap refl refl))
  ]

  pub sorted-perm : (xs : List A) → Permᴰ (sorted xs) xs
  unfolding sorted
  sorted-perm [] = Permᴰ.nil
  sorted-perm (x ∷ xs) =
      Permᴰ.trans (insert_newest-perm x (sorted xs)) (Permᴰ.cons refl (sorted-perm xs))

  All-le : (m n : ℕ) (xs : List A) → m ≤ n → All (λ y. at y ≤ m) xs → All (λ y. at y ≤ n) xs
  All-le m n [] h a = tt
  All-le m n (x ∷ xs) h a = (omega arith, All-le m n xs h a.1)

  insert-IsNewestFirst :
      (x : A) (xs : List A) → IsNewestFirst at xs → IsNewestFirst at (insert_newest x xs)
  unfolding insert_newest
  insert-IsNewestFirst x [] s = (tt, tt)
  insert-IsNewestFirst x (y ∷ ys) s = elim (Bool-cases (leb (at y) (at x))) [
    | inl e ↦ let le : at y ≤ at x = ground arith in rw e ((le, All-le (at y) (at x) ys le s.0), s)
    | inr e ↦
        let le : at x ≤ at y = ground arith in
        rw e (
          All-perm (λ z. at z ≤ at y) (insert_newest-perm x ys) (le, s.0),
          insert-IsNewestFirst x ys s.1,
        )
  ]

  pub sorted-IsNewestFirst : (xs : List A) → IsNewestFirst at (sorted xs)
  unfolding sorted
  sorted-IsNewestFirst [] = tt
  sorted-IsNewestFirst (x ∷ xs) = insert-IsNewestFirst x (sorted xs) (sorted-IsNewestFirst xs)

  -- A database that keeps the table's order for rows of one time.
  abbrev pub newest_rows : NewestFirst A at
  newest_rows = record {
    sort = sorted;
    sort-perm = sorted-perm;
    sort-IsNewestFirst = sorted-IsNewestFirst;
  }

  insert-insert :
      (x y : A) (xs : List A)
      → at x ≢ at y
      → insert_newest x (insert_newest y xs) ≡ insert_newest y (insert_newest x xs)
  unfolding insert_newest
  insert-insert x y [] n = ground arith
  insert-insert x y (z ∷ zs) n = ground (arith, insert-insert x y zs n)

  distinct-perm : {xs ys : List A} → Permᴰ xs ys → HasDistinctTimes ys → HasDistinctTimes xs
  distinct-perm Permᴰ.nil h = tt
  distinct-perm (Permᴰ.cons {a} {b} {l₁} {l₂} e p) h = (
    All-perm (λ y. at a ≢ at y) p (subst (λ v. All (λ y. at v ≢ at y) l₂) (sym e) h.0),
    distinct-perm p h.1,
  )
  distinct-perm (Permᴰ.swap {a} {b} {a'} {b'} {l} e f) h = (
    (
      λ q. h.0.0 (sym (ap at f) ∙ sym q ∙ ap at e),
      subst (λ v. All (λ y. at v ≢ at y) l) (sym e) h.1.0,
    ),
    (subst (λ v. All (λ y. at v ≢ at y) l) (sym f) h.0.1, h.1.1),
  )
  distinct-perm (Permᴰ.trans p q) h = distinct-perm p (distinct-perm q h)

  sorted-sorted : {xs ys : List A} → Permᴰ xs ys → HasDistinctTimes ys → sorted xs ≡ sorted ys
  unfolding sorted
  sorted-sorted Permᴰ.nil h = refl
  sorted-sorted (Permᴰ.cons {a} {b} {l₁} {l₂} e p) h = rw (e, sorted-sorted p h.1) refl
  sorted-sorted (Permᴰ.swap {a} {b} {a'} {b'} {l} e f) h =
      rw (e, f) (insert-insert b' a' (sorted l) (λ q. h.0.0 (sym q)))
  sorted-sorted (Permᴰ.trans p q) h = sorted-sorted p (distinct-perm q h) ∙ sorted-sorted q h

  insert_first : (x : A) (xs : List A) → All (λ y. at y ≤ at x) xs → insert_newest x xs ≡ x ∷ xs
  unfolding insert_newest
  insert_first x [] h = refl
  insert_first x (y ∷ ys) h = ground arith

  sorted_of_newest : (xs : List A) → IsNewestFirst at xs → sorted xs ≡ xs
  unfolding sorted
  sorted_of_newest [] h = refl
  sorted_of_newest (x ∷ xs) h = rw (sorted_of_newest xs h.1) (insert_first x xs h.0)

  -- With distinct times every order that is newest first is the same one.
  pub sort-eq-sorted :
      (order : NewestFirst A at) (xs : List A) → HasDistinctTimes xs → order.sort xs ≡ sorted xs
  sort-eq-sorted order xs h =
      sym (sorted_of_newest (order.sort xs) (order.sort-IsNewestFirst xs))
      ∙ sorted-sorted (order.sort-perm xs) h

  pub distinct-select :
      (test : A → Bool) (xs : List A) → HasDistinctTimes xs → HasDistinctTimes (select test xs)
  unfolding select
  distinct-select test [] h = tt
  distinct-select test (x ∷ xs) h = elim (Bool-cases (test x)) [
    | inl e ↦ rw e (All-select (λ y. at x ≢ at y) test xs h.0, distinct-select test xs h.1)
    | inr e ↦ rw e (distinct-select test xs h.1)
  ]
