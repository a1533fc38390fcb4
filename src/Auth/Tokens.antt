-- ===== src/Auth/Tokens.antt =====
-- Passwords and JSON web tokens: app/core/security.py.
use ethiogram.Base.{
  ℕ, ◌+◌, ◌*◌, String, Bool, false, not, ◌&&◌, Option, none, some, ◌==◌, eq_string, eq_nat,
  contains, if◌then◌else◌,
}
use ethiogram.Base.Texts.{Text}
use ethiogram.Models.{UserRole, Settings}

-- The payload of a token. `sub` is none where it is not the text of a UUID; the issuer is left out.
pub record Claims : Type 0 where
  pub sub : Option ℕ
  pub role : Option UserRole
  pub iat : ℕ
  pub exp : ℕ
  pub kind : String
  pub jti : Option ℕ

-- What `jwt.decode` makes of a text.
pub data Decoded : Type 0 where
  expired_signature invalid_token : Decoded
  payload : Claims → Decoded

-- The libraries: `jwt.encode` and `jwt.decode` with the platform's key, at an instant; bcrypt of the
-- digest of a password, with a salt (none where `checkpw` raises `ValueError`). A seed supplies the
-- random digits.
pub record Security : Type 0 where
  pub encode : Claims → String
  pub decode : String → ℕ → Decoded
  pub digest : Text → String
  pub hashpw : String → (salt : ℕ) → String
  pub checkpw : String → String → Option Bool
  pub token_hex : ℕ → ℕ
  pub referral_hex : ℕ → Text
  pub upper : Text → Text

module _ (security : Security) where
  abbrev pub hash_password : (salt : ℕ) → Text → String
  hash_password salt password = security.hashpw (security.digest password) salt

  abbrev pub verify_password : Text → String → Bool
  verify_password plain hashed = elim (security.checkpw (security.digest plain) hashed) [
    | none ↦ false
    | some matches ↦ matches
  ]

  abbrev pub create_access_token : Settings → ℕ → UserRole → (now : ℕ) → String
  create_access_token settings subject role now = security.encode (record {
    sub = some subject;
    role = some role;
    iat = now;
    exp = now + settings.jwt_access_token_expire_minutes * 60;
    kind = "access";
    jti = none;
  })

  abbrev pub create_refresh_token : Settings → ℕ → (now seed : ℕ) → String
  create_refresh_token settings subject now seed = security.encode (record {
    sub = some subject;
    role = none;
    iat = now;
    exp = now + settings.jwt_refresh_token_expire_days * 86400;
    kind = "refresh";
    jti = some (security.token_hex seed);
  })

  -- A payload of another type makes the token invalid.
  abbrev pub require_access : Decoded → Decoded
  require_access (payload claims) =
      if claims.kind == "access" then payload claims else Decoded.invalid_token
  require_access failure = failure

  abbrev pub decode_access_token : String → (now : ℕ) → Decoded
  decode_access_token token now = require_access (security.decode token now)

  abbrev pub generate_referral_code : (seed : ℕ) → Text
  generate_referral_code seed = security.upper (security.referral_hex seed)

abbrev pub is_super_admin_telegram_id : Settings → ℕ → Bool
is_super_admin_telegram_id settings id = contains id settings.admin_telegram_ids

-- A header or a secret that is absent or empty opens nothing.
abbrev pub matches_secret : String → Option String → Bool
matches_secret given none = false
matches_secret given (some expected) = not (expected == "") && given == expected

abbrev pub verify_admin_secret_header : Settings → Option String → Bool
verify_admin_secret_header settings none = false
verify_admin_secret_header settings (some given) =
    not (given == "") && matches_secret given settings.admin_secret_value
