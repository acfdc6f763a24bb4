-- ===== src/Prelude/Rows.antt =====
-- A database table as the list of its rows, read and written by a test on the rows.
use mathlib.Core.Path.{◌≡◌, refl}
use mathlib.Core.Bool.{Bool, true, false}
use mathlib.Core.Option.{Option, none, some}
use mathlib.Core.List.{List, [], ◌∷◌, ◌++◌}
use native.Mathlib.Omega.{arith}
use ai_calling_agent.Prelude.Tests.{if◌then◌else◌}
use ai_calling_agent.Prelude.Lists.{All, select}

module _ {ℓ} {A : Type ℓ} where
  -- SELECT … WHERE p, its first row
  unfoldable pub first : (A → Bool) → List A → Option A
  first p [] = none
  first p (x ∷ xs) = if p x then some x else first p xs

  -- UPDATE … SET f WHERE p
  unfoldable pub set_where : (A → Bool) → (A → A) → List A → List A
  set_where p f [] = []
  set_where p f (x ∷ xs) = (if p x then f x else x) ∷ set_where p f xs

  pub first-some : (p : A → Bool) (xs : List A) (x : A) → first p xs ≡ some x → p x ≡ true
  unfolding first
  first-some p [] x e = ground arith
  first-some p (y ∷ ys) x e = ground (arith, first-some p ys x)

  pub first-append :
      (p : A → Bool) (xs ys : List A)
      → first p (xs ++ ys) ≡ (elim (first p xs) [ none ↦ first p ys | some x ↦ some x ])
  unfolding first
  first-append p [] ys = refl
  first-append p (x ∷ xs) ys = ground (arith, first-append p xs ys)

  -- A statement that leaves every answer of a test as it was shows in the first row of that test only.
  pub first-set_where :
      (p q : A → Bool) (f : A → A) (xs : List A)
      → ((x : A) → p (f x) ≡ p x)
      → first p (set_where q f xs)
        ≡ (elim (first p xs) [ none ↦ none | some x ↦ some (if q x then f x else x) ])
  unfolding first set_where
  first-set_where p q f [] same = refl
  first-set_where p q f (x ∷ xs) same = ground (arith, same x, first-set_where p q f xs same)

module _ {ℓ κ} {A : Type ℓ} (P : A → Type κ) where
  pub All-select : (p : A → Bool) (xs : List A) → All P xs → All P (select p xs)
  unfolding select
  All-select p [] h = tt
  All-select p (x ∷ xs) h = ground (arith, All-select p xs h.1)

  pub All-set_where :
      (p : A → Bool) (f : A → A) (xs : List A)
      → ((x : A) → P x → P (f x))
      → All P xs
      → All P (set_where p f xs)
  unfolding set_where
  All-set_where p f [] keep h = tt
  All-set_where p f (x ∷ xs) keep h = ground (arith, keep x h.0, All-set_where p f xs keep h.1)

  pub All-select_where :
      (p : A → Bool) (xs : List A) → ((x : A) → p x ≡ true → P x) → All P (select p xs)
  unfolding select
  All-select_where p [] h = tt
  All-select_where p (x ∷ xs) h = ground (arith, h x, All-select_where p xs h)

module _ {ℓ} {A : Type ℓ} where
  -- A statement that changes no row of a test, and makes none, leaves the rows of the test as they were.
  pub select-set_where :
      (p q : A → Bool) (f : A → A) (xs : List A)
      → ((x : A) → q x ≡ true → (p x ≡ false) × (p (f x) ≡ false))
      → select p (set_where q f xs) ≡ select p xs
  unfolding set_where select
  select-set_where p q f [] apart = refl
  select-set_where p q f (x ∷ xs) apart = ground (arith, apart x, select-set_where p q f xs apart)

  -- A statement whose effect on a row is not changed by repeating it.
  pub set_where-set_where :
      (q : A → Bool) (f g : A → A) (xs : List A)
      → ((x : A) → q x ≡ true → g (f x) ≡ f x)
      → ((x : A) → q (f x) ≡ q x)
      → set_where q g (set_where q f xs) ≡ set_where q f xs
  unfolding set_where
  set_where-set_where q f g [] again same = refl
  set_where-set_where q f g (x ∷ xs) again same =
      ground (arith, again x, same x, set_where-set_where q f g xs again same)

  -- A statement for rows that are not there.
  pub set_where-none :
      (q : A → Bool) (f : A → A) (xs : List A) → first q xs ≡ none → set_where q f xs ≡ xs
  unfolding set_where first
  set_where-none q f [] h = refl
  set_where-none q f (x ∷ xs) h = ground (arith, set_where-none q f xs)
