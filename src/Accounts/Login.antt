-- ===== src/Accounts/Login.antt =====
-- services/api/src/main.py: `login`, `refresh_token` and `me`.
use ai_calling_agent.Prelude.{
  ℕ, ◌*◌, String, Bool, false, not, ◌&&◌, ◌==◌, Option, none, some, List, if◌then◌else◌,
}
use ai_calling_agent.Prelude.Rows.{first}
use ai_calling_agent.Accounts.Models.{User, Reply, ok, raised, text_is}
use ai_calling_agent.Accounts.Tokens.{
  Claims, Jwt, Bcrypt, Expiry, verify_password, role_permissions, create_access_token,
  create_refresh_token, decode_refresh_token,
}

pub record LoginRequest : Type 0 where
  pub email : String
  pub password : String

pub record TokenResponse : Type 0 where
  pub access_token : String
  pub refresh_token : String
  pub expires_in : ℕ

pub record MeResponse : Type 0 where
  pub user_id : String
  pub email : String
  pub full_name : String
  pub role : String
  pub tenant_id : Option ℕ
  pub permissions : List String

-- API_ADMIN_EMAIL, API_PASSWORD and API_ADMIN_FULL_NAME; "" where one is not set.
pub record Bootstrap : Type 0 where
  pub admin_email : String
  pub password : String
  pub full_name : String

-- d.get(k, default)
unfoldable pub or_default : Option String → String → String
or_default none d = d
or_default (some s) d = s

-- `s or default`
unfoldable pub or_if_empty : Option String → String → String
or_if_empty none d = d
or_if_empty (some s) d = if s == "" then d else s

module _ (j : Jwt) (b : Bcrypt) (e : Expiry) where
  -- The pair of tokens for one subject.
  unfoldable pub tokens : ℕ → String → String → Option ℕ → String → String → TokenResponse
  unfolding create_access_token create_refresh_token
  tokens now subject role client_id email full_name = record {
    access_token = create_access_token j e now subject role client_id email full_name;
    refresh_token = create_refresh_token j e now subject role email full_name;
    expires_in = e.access_minutes * 60;
  }

  -- The password check against the stored hash.
  unfoldable pub password_ok : String → Option String → Bool
  unfolding verify_password
  password_ok plain none = false
  password_ok plain (some hashed) = if hashed == "" then false else verify_password b plain hashed

  unfoldable pub login_user : ℕ → String → User → Reply TokenResponse
  unfolding text_is password_ok tokens or_if_empty
  login_user now password user =
      if text_is user.status "active" && password_ok password user.password_hash
      then ok (
          tokens now user.id (or_if_empty user.role "agent") user.tenant_id user.email
            user.full_name)
      else raised 401 "Invalid credentials"

  -- The break-glass login, where no user has the email.
  unfoldable pub login_bootstrap : ℕ → Bootstrap → LoginRequest → Reply TokenResponse
  unfolding tokens
  login_bootstrap now boot body =
      if not (boot.admin_email == "")
        && (not (boot.password == "")
            && (body.email == boot.admin_email && body.password == boot.password))
      then ok (tokens now body.email "super_admin" none body.email boot.full_name)
      else raised 401 "Invalid credentials"

  -- POST /auth/login
  unfoldable pub login : ℕ → Bootstrap → LoginRequest → List User → Reply TokenResponse
  unfolding login_user login_bootstrap
  login now boot body users = elim (first (λ user. user.email == body.email) users) [
    | none ↦ login_bootstrap now boot body
    | some user ↦ login_user now body.password user
  ]

  -- The new pair of tokens from a refresh token's payload; a missing "sub" is a KeyError.
  unfoldable pub renewed : ℕ → Claims → Reply TokenResponse
  unfolding tokens or_default
  renewed now payload = elim payload.sub [
    | none ↦ raised 500 "Internal Server Error"
    | some subject ↦ ok (
        tokens now subject (or_default payload.role "agent") none (or_default payload.email "")
          (or_default payload.full_name ""))
  ]

  -- POST /auth/refresh
  unfoldable pub refresh : ℕ → String → Reply TokenResponse
  unfolding decode_refresh_token renewed
  refresh now token = elim (decode_refresh_token j now token) [
    | raised code detail ↦ raised code detail
    | ok payload ↦ renewed now payload
  ]

-- GET /auth/me, for the payload of the token
unfoldable pub me : Claims → Reply MeResponse
unfolding or_default role_permissions
me user = elim user.sub [
  | none ↦ raised 500 "Internal Server Error"
  | some sub ↦ ok (record {
    user_id = sub;
    email = or_default user.email "";
    full_name = or_default user.full_name "";
    role = or_default user.role "agent";
    tenant_id = user.client_id;
    permissions = role_permissions (or_default user.role "agent");
  })
]
