-- ===== src/Accounts/Sessions.antt =====
-- services/api/src/auth.py and services/api/src/main.py: what the tokens of a login are good for, until when,
-- and what is left of them after POST /auth/refresh.
use ai_calling_agent.Prelude.{
  ℕ, ◌+◌, ◌*◌, ◌≤◌, ◌≡◌, ◌⊎◌, refl, sym, ◌∙◌, String, not, ◌&&◌, ◌==◌, Option, none, some, List,
  leb, arith, Bool-cases, Option-cases, inl, inr,
}
use ai_calling_agent.Prelude.Rows.{first}
use ai_calling_agent.Accounts.Models.{User, Reply, ok, raised, text_is}
use ai_calling_agent.Accounts.Tokens.{
  Claims, Jwt, Bcrypt, Expiry, access_claims, refresh_claims, create_access_token,
  create_refresh_token, decode_refresh_token, get_current_user,
}
use ai_calling_agent.Accounts.Login.{
  LoginRequest, TokenResponse, Bootstrap, tokens, password_ok, login_user, login_bootstrap, login,
  renewed, refresh, or_if_empty,
}

module _ (j : Jwt) where
  -- A token is read back, or is refused as expired.
  decode-cases :
      (now : ℕ) (c : Claims)
      → (j.decode now (j.encode c) ≡ some c) ⊎ (j.decode now (j.encode c) ≡ none)
  decode-cases now c = elim (Bool-cases (leb now c.exp)) [
    | inl y ↦ inl (j.decode-encode now c (ground arith))
    | inr n ↦ inr (j.decode-encode_expired now c (ground arith))
  ]

  pub access_token-read :
      (e : Expiry) (now later : ℕ) (subject role : String) (client_id : Option ℕ)
      (email full_name : String)
      → later ≤ now + e.access_minutes * 60
      → get_current_user j later
          (some (create_access_token j e now subject role client_id email full_name))
        ≡ ok (access_claims e now subject role client_id email full_name)
  unfolding get_current_user create_access_token
  access_token-read e now later subject role client_id email full_name h =
      rw (j.decode-encode later (access_claims e now subject role client_id email full_name) h) refl

  pub refresh_token-read :
      (e : Expiry) (now later : ℕ) (subject role email full_name : String)
      → later ≤ now + e.refresh_minutes * 60
      → decode_refresh_token j later (create_refresh_token j e now subject role email full_name)
        ≡ ok (refresh_claims e now subject role email full_name)
  unfolding decode_refresh_token create_refresh_token
  refresh_token-read e now later subject role email full_name h =
      rw (j.decode-encode later (refresh_claims e now subject role email full_name) h) refl

  pub refresh_of :
      (b : Bcrypt) (e : Expiry) (later : ℕ) (token : String) (payload : Reply Claims)
      → decode_refresh_token j later token ≡ payload
      → refresh j b e later token
        ≡ (elim payload [ raised code detail ↦ raised code detail | ok c ↦ renewed j b e later c ])
  unfolding refresh
  refresh_of b e later token payload h = rw (← h) refl

  access_token-decode_refresh :
      (e : Expiry) (now later : ℕ) (subject role : String) (client_id : Option ℕ)
      (email full_name : String)
      → (detail : String) × (decode_refresh_token j later
            (create_access_token j e now subject role client_id email full_name)
          ≡ raised 401 detail)
  unfolding create_access_token decode_refresh_token
  access_token-decode_refresh e now later subject role client_id email full_name =
      elim (decode-cases later (access_claims e now subject role client_id email full_name)) [
        | inl y ↦ ("Token is not a refresh token", rw y refl)
        | inr n ↦ ("Invalid or expired refresh token", rw n refl)
      ]

  refresh_token-not-access :
      (e : Expiry) (now later : ℕ) (subject role email full_name : String)
      → (detail : String) × (get_current_user j later
            (some (create_refresh_token j e now subject role email full_name))
          ≡ raised 401 detail)
  unfolding get_current_user create_refresh_token
  refresh_token-not-access e now later subject role email full_name =
      elim (decode-cases later (refresh_claims e now subject role email full_name)) [
        | inl y ↦ ("Refresh token cannot be used as an access token", rw y refl)
        | inr n ↦ ("Invalid or expired token", rw n refl)
      ]

module _ (j : Jwt) (b : Bcrypt) (e : Expiry) where
  -- A login that succeeds answers a pair of tokens for one subject.
  abbrev IsPair : ℕ → TokenResponse → Type 0
  IsPair now t =
      (subject : String) × (role : String) × (client_id : Option ℕ) × (email : String)
      × (full_name : String) × (t ≡ tokens j b e now subject role client_id email full_name)

  pub login-none :
      (now : ℕ) (boot : Bootstrap) (body : LoginRequest) (users : List User)
      → first (λ user. user.email == body.email) users ≡ none
      → login j b e now boot body users ≡ login_bootstrap j b e now boot body
  unfolding login
  login-none now boot body users h = rw (h, login) refl

  pub login-some :
      (now : ℕ) (boot : Bootstrap) (body : LoginRequest) (users : List User) (user : User)
      → first (λ user. user.email == body.email) users ≡ some user
      → login j b e now boot body users ≡ login_user j b e now body.password user
  unfolding login
  login-some now boot body users user h = rw (h, login) refl

  login_user-IsPair :
      (now : ℕ) (password : String) (user : User) (t : TokenResponse)
      → login_user j b e now password user ≡ ok t
      → IsPair now t
  unfolding login_user
  login_user-IsPair now password user t h =
      elim (Bool-cases
        (text_is user.status "active" && password_ok j b e password user.password_hash)) [
          | inl y ↦
              let h' = rw y at h in
              (
                user.id,
                or_if_empty user.role "agent",
                user.tenant_id,
                user.email,
                user.full_name,
                cc h',
              )
          | inr n ↦ let h' = rw n at h in cc h'
        ]

  login_bootstrap-IsPair :
      (now : ℕ) (boot : Bootstrap) (body : LoginRequest) (t : TokenResponse)
      → login_bootstrap j b e now boot body ≡ ok t
      → IsPair now t
  unfolding login_bootstrap
  login_bootstrap-IsPair now boot body t h =
      elim (Bool-cases (
        not (boot.admin_email == "")
        && (not (boot.password == "")
            && (body.email == boot.admin_email && body.password == boot.password)))) [
              | inl y ↦
                  let h' = rw y at h in
                  (body.email, "super_admin", none, body.email, boot.full_name, cc h')
              | inr n ↦ let h' = rw n at h in cc h'
            ]

  login-IsPair :
      (now : ℕ) (boot : Bootstrap) (body : LoginRequest) (users : List User) (t : TokenResponse)
      → login j b e now boot body users ≡ ok t
      → IsPair now t
  login-IsPair now boot body users t h =
      elim (Option-cases (first (λ user. user.email == body.email) users)) [
        | inl n ↦
            login_bootstrap-IsPair now boot body t (sym (login-none now boot body users n) ∙ h)
        | inr (user, s) ↦
            login_user-IsPair now body.password user t
              (sym (login-some now boot body users user s) ∙ h)
      ]

  -- The two tokens of a login are not interchangeable: at every time POST /auth/refresh answers 401 to the
  -- access token, and every guarded route answers 401 to the refresh token.
  pub login-not_interchangeable :
      (now later : ℕ) (boot : Bootstrap) (body : LoginRequest) (users : List User)
      (t : TokenResponse)
      → login j b e now boot body users ≡ ok t
      → ((detail : String) × (refresh j b e later t.access_token ≡ raised 401 detail))
        × ((detail : String) × (get_current_user j later (some t.refresh_token)
              ≡ raised 401 detail))
  login-not_interchangeable now later boot body users t h =
      let (subject, role, client_id, email, full_name, same) =
        login-IsPair now boot body users t h in
      let (d, bad) =
        access_token-decode_refresh j e now later subject role client_id email full_name in
      rw same (
        (d, unfold tokens in refresh_of j b e later _ _ bad),
        unfold tokens in refresh_token-not-access j e now later subject role email full_name,
      )
