-- ===== src/Accounts/Columns.antt =====
-- services/api: assignments to the columns of a row, and what a column can hold.
use ai_calling_agent.Prelude.{String, Bool, true, false, ◌==◌, Option, none, some, eqb, leb}
use ai_calling_agent.Accounts.Models.{Integer, pos, negsuc}

-- if value is not None: row.f = value
unfoldable pub set_field {ℓ} : {A : Type ℓ} → Option A → Option A → Option A
set_field none old = old
set_field (some v) old = some v

-- The same for a column that is NOT NULL.
unfoldable pub set_value {ℓ} : {A : Type ℓ} → Option A → A → A
set_value none old = old
set_value (some v) old = v

unfoldable pub same_text : Option String → Option String → Bool
same_text none none = true
same_text none (some b) = false
same_text (some a) none = false
same_text (some a) (some b) = a == b

unfoldable pub equal_integers : Integer → Integer → Bool
equal_integers (pos m) (pos n) = eqb m n
equal_integers (pos m) (negsuc n) = false
equal_integers (negsuc m) (pos n) = false
equal_integers (negsuc m) (negsuc n) = eqb m n

unfoldable pub same_integer : Option Integer → Option Integer → Bool
unfolding equal_integers
same_integer none none = true
same_integer none (some b) = false
same_integer (some a) none = false
same_integer (some a) (some b) = equal_integers a b

-- An `Integer` column holds 32 bits.
unfoldable pub is_int32 : Option Integer → Bool
is_int32 none = true
is_int32 (some (pos n)) = leb n 2_147_483_647
is_int32 (some (negsuc n)) = leb n 2_147_483_647
