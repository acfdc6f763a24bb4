-- ===== src/Paging.antt =====
-- The pages of a listing: `offset((page - 1) * per_page).limit(per_page)` and `_paginate`, which
-- services/api/src/routers/admin.py and services/api/src/routers/client.py share.
use mathlib.Core.List.{Permᴰ}
use native.Mathlib.Nat.{mod-lt, div-add-mod', suc-mul}
use ai_calling_agent.Prelude.{
  ℕ, zero, suc, ◌+◌, ◌-◌, ◌*◌, ◌/◌, ◌≤◌, ◌≡◌, refl, sym, ap, ◌∙◌, Bool, ◌&&◌, List, [], ◌∷◌, ◌++◌,
  arith, length, take, eqb, leb, if◌then◌else◌, All, All-take, length-take-le, Bool-cases, inl, inr,
}
pub mod Sorting

-- math.ceil(total / per_page) if total else 0
unfoldable pub paginate : ℕ → ℕ → ℕ
paginate total per_page = if eqb total 0 then 0 else (total + per_page - 1) / per_page

-- page ≥ 1, 1 ≤ per_page ≤ 100
unfoldable pub is_page : ℕ → ℕ → Bool
is_page page per_page = leb 1 page && (leb 1 per_page && leb per_page 100)

module _ {ℓ} {A : Type ℓ} where
  abbrev pub drop : ℕ → List A → List A
  drop zero xs = xs
  drop (suc n) [] = []
  drop (suc n) (x ∷ xs) = drop n xs

  -- stmt.offset((page - 1) * per_page).limit(per_page)
  unfoldable pub page_rows : ℕ → ℕ → List A → List A
  page_rows page per_page rows = take per_page (drop ((page - 1) * per_page) rows)

-- An answer with one page of a listing.
pub record Paginated {ℓ} (A : Type ℓ) : Type ℓ where
  pub items : List A
  pub total : ℕ
  pub page : ℕ
  pub per_page : ℕ
  pub total_pages : ℕ

unfoldable pub listing {ℓ} : {A : Type ℓ} → ℕ → ℕ → List A → Paginated A
unfolding paginate page_rows
listing page per_page rows = record {
  items = page_rows page per_page rows;
  total = length rows;
  page = page;
  per_page = per_page;
  total_pages = paginate (length rows) per_page;
}

add_suc : (m n : ℕ) → suc m + n ≡ suc (m + n)
add_suc m n = omega arith

zero_add : (n : ℕ) → 0 + n ≡ n
zero_add n = omega arith

zero_mul : (n : ℕ) → 0 * n ≡ 0
zero_mul n = omega arith

suc_sub : (n : ℕ) → suc n - 1 ≡ n
suc_sub n = omega arith

suc_mul : (n m : ℕ) → suc n * m ≡ m + n * m
suc_mul n m = omega (arith, suc-mul n m)

module _ {ℓ} {A : Type ℓ} where
  -- The rows of `n` pages in order, from page `page` on.
  unfoldable pub pages : ℕ → ℕ → ℕ → List A → List A
  pages zero page per_page rows = []
  pages (suc n) page per_page rows =
      page_rows page per_page rows ++ pages n (suc page) per_page rows

  take_none : (n : ℕ) → take {A = A} n [] ≡ []
  take_none zero = refl
  take_none (suc n) = refl

  drop_none : (n : ℕ) → drop {A = A} n [] ≡ []
  drop_none zero = refl
  drop_none (suc n) = refl

  take-add : (m n : ℕ) (xs : List A) → take (m + n) xs ≡ take m xs ++ take n (drop m xs)
  take-add zero n xs = rw (zero_add n) refl
  take-add (suc m) n [] = rw (take_none n, take_none (suc m + n)) refl
  take-add (suc m) n (x ∷ xs) = rw (add_suc m n) (ap (λ (l : List A). x ∷ l) (take-add m n xs))

  drop-drop : (m n : ℕ) (xs : List A) → drop n (drop m xs) ≡ drop (m + n) xs
  drop-drop zero n xs = rw (zero_add n) refl
  drop-drop (suc m) n [] = rw (drop_none n, drop_none (suc m + n)) refl
  drop-drop (suc m) n (x ∷ xs) = rw (add_suc m n) (drop-drop m n xs)

  drop_twice : (m n : ℕ) (xs : List A) → drop n (drop m xs) ≡ drop (n + m) xs
  drop_twice m n xs = drop-drop m n xs ∙ ap (λ (k : ℕ). drop k xs) (omega arith)

  take_all : (n : ℕ) (xs : List A) → length xs ≤ n → take n xs ≡ xs
  take_all n [] h = take_none n
  take_all zero (x ∷ xs) h = ground arith
  take_all (suc n) (x ∷ xs) h = ap (λ (l : List A). x ∷ l) (take_all n xs (omega arith))

  -- The rows of `n` pages are the first `n * per_page` rows after the pages before them.
  pages-take :
      (n before per_page : ℕ) (rows : List A)
      → pages n (suc before) per_page rows ≡ take (n * per_page) (drop (before * per_page) rows)
  unfolding pages page_rows
  pages-take zero before per_page rows = rw (zero_mul per_page) refl
  pages-take (suc n) before per_page rows =
      let ih = pages-take n (suc before) per_page rows in
      rw (suc_sub before, ih, suc_mul n per_page, suc_mul before per_page)
        (rw (sym (drop_twice (before * per_page) per_page rows))
          (sym (take-add per_page (n * per_page) (drop (before * per_page) rows))))

paginate-enough : (total per_page : ℕ) → 1 ≤ per_page → total ≤ paginate total per_page * per_page
unfolding paginate
paginate-enough total per_page h = ground (
  arith,
  div-add-mod' (total + per_page - 1) per_page,
  mod-lt (total + per_page - 1) {m = per_page} h,
)

-- The pages of a listing, in order, hold every row of it exactly once and in its order.
pub pages_all {ℓ} :
    {A : Type ℓ} (per_page : ℕ) (rows : List A)
    → 1 ≤ per_page
    → pages (listing 1 per_page rows).total_pages 1 per_page rows ≡ rows
unfolding listing
pages_all per_page rows h =
    pages-take (paginate (length rows) per_page) 0 per_page rows
    ∙ (rw (zero_mul per_page) (
        take_all (paginate (length rows) per_page * per_page) rows
          (paginate-enough (length rows) per_page h)))

-- The rows are newest first; rows of one time stand in any order.
abbrev pub IsNewestFirst : {A : Type 0} → (A → ℕ) → List A → Type 0
IsNewestFirst at [] = Unit
IsNewestFirst at (x ∷ xs) = All (λ y. at y ≤ at x) xs × IsNewestFirst at xs

-- ORDER BY created_at DESC, as the database carries it out for one query: it answers each of the rows
-- once, newest first, and is free in the order of rows of one time.
pub record NewestFirst (A : Type 0) (at : A → ℕ) : Type 0 where
  pub sort : List A → List A
  pub sort-perm : (xs : List A) → Permᴰ (sort xs) xs
  pub sort-IsNewestFirst : (xs : List A) → IsNewestFirst at (sort xs)

module _ {κ} {A : Type 0} (P : A → Type κ) where
  pub All-perm : {xs ys : List A} → Permᴰ ys xs → All P xs → All P ys
  All-perm Permᴰ.nil h = tt
  All-perm (Permᴰ.cons e q) h = (rw e h.0, All-perm q h.1)
  All-perm (Permᴰ.swap e f) h = (rw e h.1.0, (rw f h.0, h.1.1))
  All-perm (Permᴰ.trans p q) h = All-perm p (All-perm q h)

  pub All-sort :
      {at : A → ℕ} (order : NewestFirst A at) (xs : List A) → All P xs → All P (order.sort xs)
  All-sort order xs h = All-perm (order.sort-perm xs) h

module _ {ℓ κ} {A : Type ℓ} (P : A → Type κ) where
  All-drop : (n : ℕ) (xs : List A) → All P xs → All P (drop n xs)
  All-drop zero xs h = h
  All-drop (suc n) [] h = tt
  All-drop (suc n) (x ∷ xs) h = All-drop n xs h.1

  -- What holds of every row holds of the rows of a page.
  pub All-listing :
      (page per_page : ℕ) (rows : List A) → All P rows → All P (listing page per_page rows).items
  unfolding listing page_rows
  All-listing page per_page rows h =
      All-take P per_page (drop ((page - 1) * per_page) rows) (All-drop _ rows h)

-- A page holds at most `per_page` rows.
pub length-listing-le {ℓ} :
    {A : Type ℓ} (page per_page : ℕ) (rows : List A)
    → length (listing page per_page rows).items ≤ per_page
unfolding listing page_rows
length-listing-le page per_page rows = length-take-le per_page (drop ((page - 1) * per_page) rows)
