-- ===== src/Auth/Registration.antt =====
-- From the registration to an authenticated request: app/api/auth.py and app/api/deps.py, on what the
-- libraries document.
use ethiogram.Base.{
  ℕ, String, ◌+◌, ◌*◌, ◌≤◌, ◌<◌, ◌≡◌, refl, true, none, some, find_first, nat_eq_iff, length, arith,
}
use ethiogram.Base.Texts.{Text, text_equal, text_equal_iff}
use ethiogram.Models.{World, User, Settings}
use ethiogram.Request.{ok}
use ethiogram.Auth.{
  Security, Claims, Decoded, RegisterRequest, TokenResponse, register, registered, login, has_email,
  get_current_user, verify_password, password_strength, create_refresh_token, answer_with,
  open_session, add_user, has_password, is_user,
}

-- PyJWT: the token that was encoded from a payload is decoded to it from its issue until it expires.
abbrev pub DecodesUntil : Security → Claims → Type 0
DecodesUntil security claims =
    (now : ℕ)
    → claims.iat ≤ now
    → now < claims.exp
    → security.decode (security.encode claims) now ≡ Decoded.payload claims

-- bcrypt: a password fits its hash.
abbrev pub ChecksHashed : Security → Type 0
ChecksHashed security =
    (d : String) (salt : ℕ) → security.checkpw d (security.hashpw d salt) ≡ some true

-- The payload of an access token.
abbrev pub access_claims : Settings → User → ℕ → Claims
access_claims settings user now = record {
  sub = some user.id;
  role = some user.role;
  iat = now;
  exp = now + settings.jwt_access_token_expire_minutes * 60;
  kind = "access";
  jti = none;
}

text_self : (s : Text) → text_equal s s ≡ true
text_self s = (text_equal_iff s s).1 refl

module _ (security : Security) (settings : Settings) where
  register-succeeds :
      (body : RegisterRequest) (now seed : ℕ) (w : World)
      → password_strength body.password ≡ true
      → find_first (has_email body.email) w.db.users ≡ none
      → let user = registered security settings body seed w in
        register security settings body now seed w
        ≡ open_session security settings user "web" now seed (record w { db = add_user user w.db })
  unfolding register
  register-succeeds body now seed w strong free = rw (strong, free) refl

  login-succeeds :
      (email password : Text) (now seed : ℕ) (w : World) (user : User)
      → find_first (has_email email) w.db.users ≡ some user
      → has_password security settings password user ≡ true
      → user.is_active ≡ true
      → login security settings email password now seed w
        ≡ open_session security settings user "web" now seed w
  unfolding login
  login-succeeds email password now seed w user found fits active =
      rw found (rw (fits, active) refl)

  -- The access token of an answer names its user until it expires, as long as the user is active.
  get_current_user-answer :
      (user : User) (token : String) (now now' : ℕ) (w : World)
      → DecodesUntil security (access_claims settings user now)
      → now ≤ now'
      → now' < now + settings.jwt_access_token_expire_minutes * 60
      → find_first (is_user user.id) w.db.users ≡ some user
      → user.is_active ≡ true
      → get_current_user security
          (some (answer_with security settings user token now).access_token)
          now'
          w
        ≡ (ok user, w)
  unfolding get_current_user
  get_current_user-answer user token now now' w decodes issued fresh found active =
      rw (decodes now' issued fresh) (rw found (rw active refl))

  registered-password :
      (body : RegisterRequest) (seed : ℕ) (w : World)
      → ChecksHashed security
      → has_password security settings body.password (registered security settings body seed w)
        ≡ true
  registered-password body seed w checks =
      rw (verify_password, checks (security.digest body.password) seed) refl

  -- Where no user has the e-mail address, a registration with a password of at least 8 characters
  -- creates one. A login with that password that follows it, at whatever time, succeeds, and its access
  -- token passes as that user from then until it expires. What is asked of the libraries is that this
  -- token is decoded to what was encoded from its issue until it expires, and that a password fits its
  -- hash.
  pub register-login :
      (body : RegisterRequest) (now seed now' seed' now'' : ℕ) (w : World)
      → DecodesUntil security
          (access_claims settings (registered security settings body seed w) now')
      → ChecksHashed security
      → 8 ≤ length body.password
      → find_first (has_email body.email) w.db.users ≡ none
      → now' ≤ now''
      → now'' < now' + settings.jwt_access_token_expire_minutes * 60
      → let (r, w₁) = register security settings body now seed w in
        let (r', w₂) = login security settings body.email body.password now' seed' w₁ in
        (t : TokenResponse) × (t' : TokenResponse) × (user : User) × (r ≡ ok t)
        × (r' ≡ ok t')
        × (t.user_id ≡ user.id)
        × (t'.user_id ≡ user.id)
        × (user.email ≡ some body.email)
        × (get_current_user security (some t'.access_token) now'' w₂ ≡ (ok user, w₂))
  register-login body now seed now' seed' now'' w decodes checks long free issued fresh =
      let strong : password_strength body.password ≡ true = ground arith in
      let user = registered security settings body seed w in
      let w₁ : World =
        (open_session security settings user "web" now seed
          (record w { db = add_user user w.db })).1 in
      let by_email : find_first (has_email body.email) w₁.db.users ≡ some user =
        rw (text_self body.email) refl in
      let by_id : find_first (is_user user.id) w₁.db.users ≡ some user =
        rw ((nat_eq_iff user.id user.id).1 refl) refl in
      rw (register-succeeds body now seed w strong free) (
        rw
          (login-succeeds body.email body.password now' seed' w₁ user by_email
            (registered-password body seed w checks) refl)
          (
            answer_with security settings user
                (create_refresh_token security settings user.id now seed) now,
            answer_with security settings user
                (create_refresh_token security settings user.id now' seed') now',
            user,
            refl,
            refl,
            refl,
            refl,
            refl,
            get_current_user-answer user (create_refresh_token security settings user.id now' seed')
                now' now'' (open_session security settings user "web" now' seed' w₁).1 decodes
                issued fresh by_id refl,
          ))
