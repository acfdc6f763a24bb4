-- ===== src/Entry/Phone.antt =====
-- services/api/src/main.py: `CallerRequest` and its validator of the phone number, for texts of ASCII.
use Prim.Native.Char.{code}
use Prim.Native.String.{String}
use ai_calling_agent.Prelude.{ℕ, zero, suc, Bool, false, ◌&&◌, ◌||◌, eqb, leb, if◌then◌else◌}
use ai_calling_agent.Accounts.Models.{Reply, ok, raised}

pub record CallerRequest : Type 0 where
  pub customer_name : String
  pub phone_number : String
  pub hotel_name : String
  pub check_in_date : String
  pub check_out_date : String

-- [\s\-\(\)]
unfoldable pub is_separator : ℕ → Bool
is_separator c =
    (leb 9 c && leb c 13) || ((leb 28 c && leb c 32) || (eqb c b'-' || (eqb c b'(' || eqb c b')')))

-- re.sub(r"[\s\-\(\)]", "", v)
unfoldable pub cleaned : String → String
unfolding is_separator
cleaned String.[] = String.[]
cleaned (String.◌∷◌ c s) =
    let rest = cleaned s in if is_separator (code c) then rest else String.◌∷◌ c rest

-- \d{low,high}$
unfoldable pub is_digits : ℕ → ℕ → String → Bool
is_digits low high String.[] = eqb low 0
is_digits low zero (String.◌∷◌ c s) = false
is_digits zero (suc high) (String.◌∷◌ c s) =
    (leb b'0' (code c) && leb (code c) b'9') && is_digits 0 high s
is_digits (suc low) (suc high) (String.◌∷◌ c s) =
    (leb b'0' (code c) && leb (code c) b'9') && is_digits low high s

-- [1-9]\d{7,14}$
unfoldable pub is_subscriber : String → Bool
unfolding is_digits
is_subscriber String.[] = false
is_subscriber (String.◌∷◌ c s) = (leb b'1' (code c) && leb (code c) b'9') && is_digits 7 14 s

-- _E164_RE
unfoldable pub is_e164 : String → Bool
unfolding is_subscriber
is_e164 String.[] = false
is_e164 (String.◌∷◌ c s) = eqb (code c) b'+' && is_subscriber s

-- The request with the number that the validator returns.
unfoldable pub validated : CallerRequest → Reply CallerRequest
unfolding cleaned is_e164
validated request =
    if is_e164 (cleaned request.phone_number)
    then ok (record request { phone_number = cleaned request.phone_number })
    else raised 422 "phone_number must be E.164 format (e.g. +919876543210)"
