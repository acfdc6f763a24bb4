-- ===== src/Portal/Refreshes.antt =====
-- services/api/src/main.py with services/api/src/routers/client.py: a user of a tenant who logs in, and the
-- same user after POST /auth/refresh.
use ai_calling_agent.Prelude.{
  ℕ, suc, ◌+◌, ◌*◌, ◌≤◌, ◌≡◌, refl, ◌∙◌, true, ◌==◌, none, some, List, arith,
}
use ai_calling_agent.Prelude.Rows.{first}
use ai_calling_agent.Accounts.Models.{User, ok, raised, text_is}
use ai_calling_agent.Accounts.Tokens.{
  Claims, Jwt, Bcrypt, Expiry, access_claims, role_permissions, get_current_user,
}
use ai_calling_agent.Accounts.Login.{
  LoginRequest, TokenResponse, Bootstrap, tokens, password_ok, login_user, login, renewed, refresh,
  or_if_empty, me,
}
use ai_calling_agent.Accounts.Sessions.{
  login-some, access_token-read, refresh_token-read, refresh_of,
}
use ai_calling_agent.Portal.Access.{require_client, is_client_role}

require_client-some :
    (c : Claims) (id : ℕ)
    → is_client_role c.role ≡ true
    → c.client_id ≡ some (suc id)
    → require_client c ≡ ok (suc id)
unfolding require_client
require_client-some c id r t = ground arith

require_client-none :
    (c : Claims)
    → is_client_role c.role ≡ true
    → c.client_id ≡ none
    → require_client c ≡ raised 403 "Token has no tenant assigned. Contact your administrator."
unfolding require_client
require_client-none c r t = ground arith

module _ (j : Jwt) (b : Bcrypt) (e : Expiry) (now : ℕ) (boot : Bootstrap) (body : LoginRequest)
    (users : List User) (user : User) (found : first (λ u. u.email == body.email) users ≡ some user)
    (active : text_is user.status "active" ≡ true)
    (known : password_ok j b e body.password user.password_hash ≡ true) where
  -- The pair of tokens of this login.
  abbrev issued : TokenResponse
  issued =
      tokens j b e now user.id (or_if_empty user.role "agent") user.tenant_id user.email
        user.full_name

  login-issued : login j b e now boot body users ≡ ok issued
  login-issued =
      login-some j b e now boot body users user found
      ∙ (unfold login_user in rw (active, known) refl)

  issued-read :
      (later : ℕ)
      → later ≤ now + e.access_minutes * 60
      → get_current_user j later (some issued.access_token)
        ≡ ok (
            access_claims e now user.id
              (or_if_empty user.role "agent")
              user.tenant_id
              user.email
              user.full_name)
  unfolding tokens
  issued-read later h =
      access_token-read j e now later user.id _ user.tenant_id user.email user.full_name h

  -- An active user who logs in with the right password is, as long as the access token lasts, the user that
  -- GET /auth/me answers: with the id, the names, the role, the tenant and the role's permissions of the row.
  pub login-me :
      (later : ℕ)
      → later ≤ now + e.access_minutes * 60
      → (t : TokenResponse) × (c : Claims) × (login j b e now boot body users ≡ ok t)
        × (get_current_user j later (some t.access_token) ≡ ok c)
        × (me c
            ≡ ok (record {
              user_id = user.id;
              email = user.email;
              full_name = user.full_name;
              role = or_if_empty user.role "agent";
              tenant_id = user.tenant_id;
              permissions = role_permissions (or_if_empty user.role "agent");
            }))
  unfolding me access_claims
  login-me later h = (issued, _, login-issued, issued-read later h, refl)

  abbrev renewed_claims : (later : ℕ) → Claims
  renewed_claims later =
      access_claims e later user.id (or_if_empty user.role "agent") none user.email user.full_name

  refresh-issued :
      (later : ℕ)
      → later ≤ now + e.refresh_minutes * 60
      → refresh j b e later issued.refresh_token
        ≡ ok (
            tokens j b e later user.id
              (or_if_empty user.role "agent")
              none
              user.email
              user.full_name)
  unfolding tokens renewed
  refresh-issued later h =
      refresh_of j b e later _ _
        (refresh_token-read j e now later user.id _ user.email user.full_name h)

  renewed-read :
      (later : ℕ)
      → get_current_user j later (
          some
            (tokens j b e later user.id
              (or_if_empty user.role "agent")
              none
              user.email
              user.full_name).access_token)
        ≡ ok (renewed_claims later)
  unfolding tokens
  renewed-read later =
      access_token-read j e later later user.id _ none user.email user.full_name (omega arith)

  renewed-no_tenant :
      (later : ℕ)
      → is_client_role (some (or_if_empty user.role "agent")) ≡ true
      → require_client (renewed_claims later)
        ≡ raised 403 "Token has no tenant assigned. Contact your administrator."
  unfolding access_claims
  renewed-no_tenant later client = require_client-none (renewed_claims later) client refl

  issued-client :
      (id : ℕ)
      → user.tenant_id ≡ some (suc id)
      → is_client_role (some (or_if_empty user.role "agent")) ≡ true
      → require_client (
          access_claims e now user.id
            (or_if_empty user.role "agent")
            user.tenant_id
            user.email
            user.full_name)
        ≡ ok (suc id)
  unfolding access_claims
  issued-client id tenant client = require_client-some _ id client tenant

  -- A tenant's administrator or agent may use /client/* with the access token of a login, and no longer with
  -- the access token that POST /auth/refresh gives for it: that one names no tenant, and the answer is 403.
  pub login-refresh-require_client :
      (later id : ℕ)
      → user.tenant_id ≡ some (suc id)
      → is_client_role (some (or_if_empty user.role "agent")) ≡ true
      → later ≤ now + e.refresh_minutes * 60
      → (t t' : TokenResponse) × (c c' : Claims) × (login j b e now boot body users ≡ ok t)
        × (get_current_user j now (some t.access_token) ≡ ok c)
        × (require_client c ≡ ok (suc id))
        × (refresh j b e later t.refresh_token ≡ ok t')
        × (get_current_user j later (some t'.access_token) ≡ ok c')
        × (require_client c'
            ≡ raised 403 "Token has no tenant assigned. Contact your administrator.")
  login-refresh-require_client later id tenant client h = (
    issued,
    _,
    _,
    renewed_claims later,
    login-issued,
    issued-read now (omega arith),
    issued-client id tenant client,
    refresh-issued later h,
    renewed-read later,
    renewed-no_tenant later client,
  )
