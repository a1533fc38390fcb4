-- ===== src/Auth/Guards.antt =====
-- The dependencies of app/api/deps.py that a request passes before its handler.
use ethiogram.Base.{ℕ, String, Bool, false, not, ◌&&◌, ◌||◌, Option, none, some, find_first, nat_eq}
use ethiogram.Models.{User, is_admin_role, is_staff_role, Settings, Error}
use ethiogram.Request.{Action, pure, raise, raise_if, gets, or_raise, ◌>>=◌, ◌>>◌}
use ethiogram.Auth.Tokens.{
  Security, Claims, Decoded, decode_access_token, is_super_admin_telegram_id,
  verify_admin_secret_header,
}

abbrev pub is_user : ℕ → User → Bool
is_user id user = nat_eq user.id id

abbrev pub find_user : ℕ → Action (Option User)
find_user id = gets (λ w. find_first (is_user id) w.db.users)

abbrev pub is_active : Option User → Bool
is_active none = false
is_active (some user) = user.is_active

abbrev pub active_or_raise : Option User → Action User
active_or_raise user = do
  raise_if (not (is_active user)) Error.auth_error
  or_raise user Error.auth_error

abbrev pub claims_or_raise : Decoded → Action Claims
claims_or_raise Decoded.expired_signature = raise Error.token_expired
claims_or_raise Decoded.invalid_token = raise Error.token_invalid
claims_or_raise (Decoded.payload claims) = pure claims

module _ (security : Security) where
  -- `UUID(user_id)` raises `ValueError` on another text.
  abbrev pub authenticate : Option String → (now : ℕ) → Action User
  authenticate none now = raise Error.auth_error
  authenticate (some credentials) now = do
    claims ← claims_or_raise (decode_access_token security credentials now)
    user_id ← or_raise claims.sub Error.value_error
    user ← find_user user_id
    active_or_raise user

  unfoldable pub get_current_user : (credentials : Option String) → (now : ℕ) → Action User
  get_current_user credentials now = authenticate credentials now

abbrev pub is_allowlisted : Settings → Option ℕ → Bool
is_allowlisted settings none = false
is_allowlisted settings (some id) = not (nat_eq id 0) && is_super_admin_telegram_id settings id

-- The guard of app/api/admin.py.
unfoldable pub get_current_admin :
    Settings → User → (x_ethiogram_admin : Option String) → Action User
get_current_admin settings user x_ethiogram_admin = do
  raise_if (not (is_staff_role user.role)) Error.admin_required
  raise_if (not (verify_admin_secret_header settings x_ethiogram_admin)) Error.admin_required
  pure user

-- The guard of app/api/admin_panel.py.
abbrev pub is_panel_admin : Settings → User → Bool
is_panel_admin settings user =
    user.is_admin || is_admin_role user.role || is_allowlisted settings user.telegram_id

unfoldable pub get_current_admin_user : Settings → User → Action User
get_current_admin_user settings user = do
  raise_if (not (is_panel_admin settings user)) Error.admin_required
  pure user
