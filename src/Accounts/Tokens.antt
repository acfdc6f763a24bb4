-- ===== src/Accounts/Tokens.antt =====
-- services/api/src/auth.py: passwords and tokens. The libraries for JWTs and for bcrypt are no part of the
-- repository; what the code relies on are the laws of their interfaces. Times are seconds here.
use ai_calling_agent.Prelude.{
  ℕ, ◌+◌, ◌*◌, ◌≤◌, ◌<◌, ◌≡◌, String, Bool, true, false, ◌==◌, Option, none, some, List, [], ◌∷◌,
  if◌then◌else◌,
}
use ai_calling_agent.Accounts.Models.{Reply, ok, raised, text_is}

-- The payload of a token, with the keys that the code reads.
pub record Claims : Type 0 where
  pub sub : Option String
  pub role : Option String
  pub exp : ℕ
  pub token_type : Option String
  pub email : Option String
  pub full_name : Option String
  pub client_id : Option ℕ

-- jose.jwt with the secret and the algorithm of the configuration.
pub record Jwt : Type 0 where
  pub encode : Claims → String
  -- At a time; `none` is a JWTError.
  pub decode : ℕ → String → Option Claims
  -- An encoded token is read back until it expires, and not after.
  pub decode-encode : (now : ℕ) (c : Claims) → now ≤ c.exp → decode now (encode c) ≡ some c
  pub decode-encode_expired : (now : ℕ) (c : Claims) → c.exp < now → decode now (encode c) ≡ none

pub record Bcrypt : Type 0 where
  -- With the salt that is drawn.
  pub hashpw : String → String → String
  -- `none` is the ValueError of a malformed hash.
  pub checkpw : String → String → Option Bool
  pub checkpw-hashpw : (salt plain : String) → checkpw plain (hashpw salt plain) ≡ some true

-- The expiry times of the configuration, in minutes.
pub record Expiry : Type 0 where
  pub access_minutes : ℕ
  pub refresh_minutes : ℕ

module _ (b : Bcrypt) where
  unfoldable pub hash_password : String → String → String
  hash_password salt plain = b.hashpw salt plain

  unfoldable pub or_false : Option Bool → Bool
  or_false none = false
  or_false (some x) = x

  unfoldable pub verify_password : String → String → Bool
  unfolding or_false
  verify_password plain hashed = or_false (b.checkpw plain hashed)

-- _ROLE_PERMISSIONS.get(role, [])
unfoldable pub role_permissions : String → List String
role_permissions role =
    if role == "super_admin"
    then "tenant:read" ∷ "tenant:write" ∷ "user:read" ∷ "user:write" ∷ "call:read" ∷ []
    else if role == "tenant_admin"
    then "user:read" ∷ "call:read" ∷ []
    else if role == "agent"
    then "call:read" ∷ []
    else []

-- The payload of create_access_token.
unfoldable pub access_claims : Expiry → ℕ → String → String → Option ℕ → String → String → Claims
access_claims e now subject role client_id email full_name = record {
  sub = some subject;
  role = some role;
  exp = now + e.access_minutes * 60;
  token_type = some "access";
  email = some email;
  full_name = some full_name;
  client_id = client_id;
}

-- The payload of create_refresh_token.
unfoldable pub refresh_claims : Expiry → ℕ → String → String → String → String → Claims
refresh_claims e now subject role email full_name = record {
  sub = some subject;
  role = some role;
  exp = now + e.refresh_minutes * 60;
  token_type = some "refresh";
  email = some email;
  full_name = some full_name;
  client_id = none;
}

module _ (j : Jwt) where
  unfoldable pub create_access_token :
      Expiry → ℕ → String → String → Option ℕ → String → String → String
  unfolding access_claims
  create_access_token e now subject role client_id email full_name =
      j.encode (access_claims e now subject role client_id email full_name)

  unfoldable pub create_refresh_token : Expiry → ℕ → String → String → String → String → String
  unfolding refresh_claims
  create_refresh_token e now subject role email full_name =
      j.encode (refresh_claims e now subject role email full_name)

  -- A refresh token's payload; any other token is refused.
  unfoldable pub refresh_payload : Option Claims → Reply Claims
  unfolding text_is
  refresh_payload none = raised 401 "Invalid or expired refresh token"
  refresh_payload (some c) =
      if text_is c.token_type "refresh" then ok c else raised 401 "Token is not a refresh token"

  unfoldable pub decode_refresh_token : ℕ → String → Reply Claims
  unfolding refresh_payload
  decode_refresh_token now token = refresh_payload (j.decode now token)

  unfoldable pub access_payload : Option Claims → Reply Claims
  unfolding text_is
  access_payload none = raised 401 "Invalid or expired token"
  access_payload (some c) =
      if text_is c.token_type "refresh"
      then raised 401 "Refresh token cannot be used as an access token"
      else ok c

  -- get_current_user on the credentials of the Authorization header.
  unfoldable pub get_current_user : ℕ → Option String → Reply Claims
  unfolding access_payload
  get_current_user now none = raised 401 "Bearer token required"
  get_current_user now (some token) = access_payload (j.decode now token)
