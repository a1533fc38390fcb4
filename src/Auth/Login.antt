-- ===== src/Auth/Login.antt =====
-- The handlers of app/api/auth.py. `now` is the clock in seconds, and `seed` supplies what is random.
use ethiogram.Base.{
  ℕ, ◌+◌, ◌-◌, ◌*◌, String, Bool, true, false, not, ◌&&◌, Option, none, some, is_some, [], ◌∷◌,
  find_first, modify_first, length, nat_eq, ltb, ◌==◌, eq_string, if◌then◌else◌,
}
use ethiogram.Base.Texts.{Text, eq_text}
use ethiogram.Models.{World, Db, User, UserRole, UserSession, Settings, Error}
use ethiogram.Request.{
  Action, ok, pure, raise, raise_if, gets, or_raise, modify_db, transaction, ◌>>=◌, ◌>>◌,
}
use ethiogram.Auth.Tokens.{
  Security, Claims, Decoded, payload, hash_password, verify_password, create_access_token,
  create_refresh_token, generate_referral_code,
}
use ethiogram.Auth.Guards.{find_user, active_or_raise}

pub record TokenResponse : Type 0 where
  pub access_token : String
  pub refresh_token : String
  pub user_id : ℕ
  pub role : UserRole

-- The addresses are as `EmailStr` leaves them. The full name is left out.
pub record RegisterRequest : Type 0 where
  pub email : Text
  pub password : Text
  pub referral_code : Option Text

-- The names and the picture are left out.
pub record TelegramAuthRequest : Type 0 where
  pub id : ℕ
  pub username : Option Text
  pub auth_date : ℕ
  pub hash : String

-- The validator of a new password.
abbrev pub password_strength : Text → Bool
password_strength v = not (ltb (length v) 8)

abbrev pub has_email : Text → User → Bool
has_email email user = elim user.email [ none ↦ false | some e ↦ e == email ]

abbrev pub has_code : Text → User → Bool
has_code code user = elim user.referral_code [ none ↦ false | some c ↦ c == code ]

abbrev pub has_telegram : ℕ → User → Bool
has_telegram id user = elim user.telegram_id [ none ↦ false | some i ↦ nat_eq i id ]

abbrev pub has_token : String → UserSession → Bool
has_token token session = session.refresh_token == token

-- `UserSession.is_valid`
abbrev pub is_valid : (now : ℕ) → UserSession → Bool
is_valid now session = not (is_some session.revoked_at) && ltb now session.expires_at

abbrev pub refresh_expires : Settings → (now : ℕ) → ℕ
refresh_expires settings now = now + settings.jwt_refresh_token_expire_days * 86400

abbrev pub new_user : ℕ → User
new_user id = record {
  id = id;
  telegram_id = none;
  username = none;
  email = none;
  hashed_password = none;
  role = UserRole.owner;
  is_active = true;
  is_admin = false;
  referral_code = none;
  referred_by_id = none;
  suspended_at = none;
  suspension_reason = none;
}

abbrev pub add_user : User → Db → Db
add_user user db = record db { next_id = db.next_id + 1; users = user ∷ db.users }

abbrev pub revoke : (now : ℕ) → UserSession → UserSession
revoke now session = record session { revoked_at = some now }

abbrev pub revoke_session : String → (now : ℕ) → Db → Db
revoke_session token now db = record db {
  sessions = modify_first (has_token token) (revoke now) db.sessions;
}

abbrev pub or_else : Option Text → Option Text → Option Text
or_else none old = old
or_else (some s) old = if s == [] then old else some s

module _ (security : Security) (settings : Settings) where
  -- The two tokens of an answer, and the session that is stored for the second.
  abbrev pub new_session : User → String → String → (now : ℕ) → UserSession
  new_session user token platform now = record {
    user_id = user.id;
    refresh_token = token;
    expires_at = refresh_expires settings now;
    revoked_at = none;
    platform = platform;
  }

  abbrev pub answer_with : User → String → (now : ℕ) → TokenResponse
  answer_with user token now = record {
    access_token = create_access_token security settings user.id user.role now;
    refresh_token = token;
    user_id = user.id;
    role = user.role;
  }

  abbrev pub open_session : User → String → (now seed : ℕ) → Action TokenResponse
  open_session user platform now seed w =
      let token = create_refresh_token security settings user.id now seed in
      (
        ok (answer_with user token now),
        record w {
          db = record w.db { sessions = new_session user token platform now ∷ w.db.sessions };
        },
      )

  -- `if body.referral_code:` an empty code names nobody.
  abbrev pub referrer_of : Option Text → World → Option ℕ
  referrer_of none w = none
  referrer_of (some code) w =
      if code == [] then none else elim (find_first (has_code (security.upper code)) w.db.users) [
        | none ↦ none
        | some user ↦ some user.id
      ]

  abbrev pub registered : RegisterRequest → (seed : ℕ) → World → User
  registered body seed w = record (new_user w.db.next_id) {
    email = some body.email;
    hashed_password = some (hash_password security seed body.password);
    referral_code = some (generate_referral_code security seed);
    referred_by_id = referrer_of body.referral_code w;
  }

  -- The validator refuses a request before the handler runs.
  unfoldable pub register : RegisterRequest → (now seed : ℕ) → Action TokenResponse
  register body now seed = do
    raise_if (not (password_strength body.password)) (Error.validation_error "password")
    taken ← gets (λ w. is_some (find_first (has_email body.email) w.db.users))
    raise_if taken (Error.already_exists "User")
    user ← gets (registered body seed)
    modify_db (add_user user)
    open_session user "web" now seed

  abbrev pub has_password : Text → User → Bool
  has_password password user = elim user.hashed_password [
    | none ↦ false
    | some hashed ↦ verify_password security password hashed
  ]

  unfoldable pub login : Text → (password : Text) → (now seed : ℕ) → Action TokenResponse
  login email password now seed = do
    found ← gets (λ w. find_first (has_email email) w.db.users)
    user ← or_raise found Error.auth_error
    raise_if (not (has_password password user)) Error.auth_error
    raise_if (not user.is_active) Error.auth_error
    open_session user "web" now seed

  -- `_verify_telegram_auth`, with the HMAC of the fields that Telegram signs.
  abbrev pub is_stale : (now auth_date : ℕ) → Bool
  is_stale now auth_date = ltb 86400 ((now - auth_date) + (auth_date - now))

  abbrev pub telegram_user : TelegramAuthRequest → (seed : ℕ) → World → User
  telegram_user body seed w = record (new_user w.db.next_id) {
    telegram_id = some body.id;
    username = body.username;
    referral_code = some (generate_referral_code security seed);
  }

  abbrev pub refreshed : TelegramAuthRequest → User → User
  refreshed body user = record user { username = or_else body.username user.username }

  abbrev pub upsert : TelegramAuthRequest → (seed : ℕ) → Option User → Action User
  upsert body seed none = do
    user ← gets (telegram_user body seed)
    modify_db (add_user user)
    pure user
  upsert body seed (some user) = do
    modify_db
        (λ db. record db { users = modify_first (has_telegram body.id) (refreshed body) db.users })
    pure (refreshed body user)

  unfoldable pub telegram_login :
      (telegram_hash : TelegramAuthRequest → String)
      → TelegramAuthRequest
      → (now seed : ℕ) → Action TokenResponse
  telegram_login telegram_hash body now seed = transaction (do
    raise_if (is_stale now body.auth_date) Error.auth_error
    raise_if (not (telegram_hash body == body.hash)) Error.auth_error
    found ← gets (λ w. find_first (has_telegram body.id) w.db.users)
    user ← upsert body seed found
    raise_if (not user.is_active) Error.auth_error
    open_session user "telegram" now seed)

  -- Any exception of the decoder, and a token of another type.
  abbrev pub refresh_claims : Decoded → Action Claims
  refresh_claims (payload claims) = do
    raise_if (not (claims.kind == "refresh")) Error.token_invalid
    pure claims
  refresh_claims failure = raise Error.token_invalid

  abbrev pub valid_or_raise : (now : ℕ) → Option UserSession → Action UserSession
  valid_or_raise now none = raise Error.token_expired
  valid_or_raise now (some session) = do
    raise_if (not (is_valid now session)) Error.token_expired
    pure session

  unfoldable pub refresh_token : (token : String) → (now seed : ℕ) → Action TokenResponse
  refresh_token token now seed = do
    claims ← refresh_claims (security.decode token now)
    found ← gets (λ w. find_first (has_token token) w.db.sessions)
    session ← valid_or_raise now found
    user_id ← or_raise claims.sub Error.value_error
    account ← find_user user_id
    user ← active_or_raise account
    modify_db (revoke_session token now)
    open_session user session.platform now seed

abbrev pub revoke_if_open : String → (now : ℕ) → Option UserSession → Db → Db
revoke_if_open token now none db = db
revoke_if_open token now (some session) db =
    if is_some session.revoked_at then db else revoke_session token now db

unfoldable pub logout : (token : String) → (now : ℕ) → World → World
logout token now w = record w {
  db = revoke_if_open token now (find_first (has_token token) w.db.sessions) w.db;
}
