-- ===== src/Accounts/Encoding.antt =====
-- A token format and a password check that keep the laws of the interfaces of the module Tokens, for the
-- witnesses: the payload written out field by field, and a hash that is the password.
use Prim.Native.Char.{Char, code}
use Prim.Native.String.{String}
use ai_calling_agent.Prelude.{
  ℕ, zero, suc, ◌≤◌, ◌<◌, ◌≡◌, refl, Bool, true, Option, none, some, eqb, leb, le→leb, arith, ◌>>=◌,
  if◌then◌else◌, ◌==◌, eq_refl,
}
use ai_calling_agent.Accounts.Tokens.{Claims, Jwt, Bcrypt}

-- The marks before a character or a unit, and at the end.
abbrev more : Char
more = "1"

abbrev stop : Char
stop = "0"

write_text : String → String → String
write_text String.[] rest = String.◌∷◌ stop rest
write_text (String.◌∷◌ c s) rest = String.◌∷◌ more (String.◌∷◌ c (write_text s rest))

read_text : String → Option (String × String)
read_text String.[] = none
read_text (String.◌∷◌ m String.[]) = if eqb (code m) (code stop) then some ("", "") else none
read_text (String.◌∷◌ m (String.◌∷◌ c s)) =
    let rest = read_text s in
    if eqb (code m) (code stop)
    then some ("", String.◌∷◌ c s)
    else rest >>= (λ r. some (String.◌∷◌ c r.0, r.1))

read-write_text : (s rest : String) → read_text (write_text s rest) ≡ some (s, rest)
unfolding read_text write_text
read-write_text String.[] String.[] = refl
read-write_text String.[] (String.◌∷◌ c rest) = refl
read-write_text (String.◌∷◌ c s) rest = rw (read-write_text s rest) refl

write_number : ℕ → String → String
write_number zero rest = String.◌∷◌ stop rest
write_number (suc n) rest = String.◌∷◌ more (write_number n rest)

read_number : String → Option (ℕ × String)
read_number String.[] = none
read_number (String.◌∷◌ m s) =
    let rest = read_number s in
    if eqb (code m) (code stop) then some (0, s) else rest >>= (λ r. some (suc r.0, r.1))

read-write_number : (n : ℕ) (rest : String) → read_number (write_number n rest) ≡ some (n, rest)
unfolding read_number write_number
read-write_number zero rest = refl
read-write_number (suc n) rest = rw (read-write_number n rest) refl

module _ {A : Type 0} (write : A → String → String) (read : String → Option (A × String)) where
  write_option : Option A → String → String
  write_option none rest = String.◌∷◌ stop rest
  write_option (some a) rest = String.◌∷◌ more (write a rest)

  read_option : String → Option (Option A × String)
  read_option String.[] = none
  read_option (String.◌∷◌ m s) =
      if eqb (code m) (code stop) then some (none, s) else read s >>= (λ r. some (some r.0, r.1))

  read-write_option :
      ((a : A) (rest : String) → read (write a rest) ≡ some (a, rest))
      → (o : Option A) (rest : String) → read_option (write_option o rest) ≡ some (o, rest)
  unfolding read_option write_option
  read-write_option same none rest = refl
  read-write_option same (some a) rest = rw (same a rest) refl

write_texts : Option String → String → String
unfolding write_option write_text
write_texts = write_option write_text read_text

read_texts : String → Option (Option String × String)
unfolding read_option read_text
read_texts = read_option write_text read_text

read-write_texts :
    (o : Option String) (rest : String) → read_texts (write_texts o rest) ≡ some (o, rest)
unfolding read_texts write_texts
read-write_texts = read-write_option write_text read_text read-write_text

write_numbers : Option ℕ → String → String
unfolding write_option write_number
write_numbers = write_option write_number read_number

read_numbers : String → Option (Option ℕ × String)
unfolding read_option read_number
read_numbers = read_option write_number read_number

read-write_numbers :
    (o : Option ℕ) (rest : String) → read_numbers (write_numbers o rest) ≡ some (o, rest)
unfolding read_numbers write_numbers
read-write_numbers = read-write_option write_number read_number read-write_number

pub encode_claims : Claims → String
encode_claims c = write_texts c.sub (
    write_texts c.role (
      write_number c.exp (
        write_texts c.token_type
          (write_texts c.email (write_texts c.full_name (write_numbers c.client_id ""))))))

decode_claims : String → Option Claims
decode_claims s = read_texts s >>= (λ sub. read_texts sub.1 >>= (λ role.
    read_number role.1 >>= (λ exp. read_texts exp.1 >>= (λ token_type.
      read_texts token_type.1 >>= (λ email. read_texts email.1 >>= (λ full_name.
        read_numbers full_name.1 >>= (λ client_id. some (record {
          sub = sub.0;
          role = role.0;
          exp = exp.0;
          token_type = token_type.0;
          email = email.0;
          full_name = full_name.0;
          client_id = client_id.0;
        }))))))))

decode-encode_claims : (c : Claims) → decode_claims (encode_claims c) ≡ some c
unfolding decode_claims encode_claims
decode-encode_claims c = simp (read-write_texts, read-write_number, read-write_numbers)

pub decode_at : ℕ → String → Option Claims
decode_at now s = decode_claims s >>= (λ c. if leb now c.exp then some c else none)

pub decode_at-encode :
    (now : ℕ) (c : Claims) → now ≤ c.exp → decode_at now (encode_claims c) ≡ some c
unfolding decode_at
decode_at-encode now c h = rw (decode-encode_claims c, le→leb now c.exp h) refl

pub decode_at-encode_expired :
    (now : ℕ) (c : Claims) → c.exp < now → decode_at now (encode_claims c) ≡ none
unfolding decode_at
decode_at-encode_expired now c h = rw (decode-encode_claims c) (ground arith)

abbrev pub plain_jwt : Jwt
plain_jwt = record {
  encode = encode_claims;
  decode = decode_at;
  decode-encode = decode_at-encode;
  decode-encode_expired = decode_at-encode_expired;
}

-- The salt is not read.
unfoldable pub check_plain : String → String → Option Bool
check_plain plain hashed = some (plain == hashed)

pub check_plain-hash : (salt plain : String) → check_plain plain plain ≡ some true
unfolding check_plain
check_plain-hash salt plain = rw (eq_refl plain) refl

abbrev pub plain_bcrypt : Bcrypt
plain_bcrypt = record {
  hashpw = λ _ plain. plain;
  checkpw = check_plain;
  checkpw-hashpw = check_plain-hash;
}
