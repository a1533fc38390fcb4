-- ===== src/Admin/Lockout.antt =====
-- A suspended user: `suspend_user` of app/api/admin.py against app/api/auth.py and app/api/deps.py.
use ethiogram.Base.{
  ℕ, String, ◌≡◌, refl, true, false, some, inl, inr, Bool-cases, find_first,
  find_first-modify_first, find_first-modify_same, find_first-holds, ◌==◌, eq_string,
}
use ethiogram.Base.Texts.{Text}
use ethiogram.Models.{World, User, UserSession, Settings, Error}
use ethiogram.Request.{ok, err}
use ethiogram.Auth.{
  Security, Claims, Decoded, is_user, get_current_user, refresh_token, login, has_email,
  has_password, has_token, is_valid, is_allowlisted,
}
use ethiogram.Admin.{suspend_user, suspended_user}

-- The user of that identifier is there, and is not active.
abbrev IsLocked : ℕ → World → Type 0
IsLocked id w =
    (user : User) × (find_first (is_user id) w.db.users ≡ some user) × (user.is_active ≡ false)

module _ (security : Security) (settings : Settings) where
  get_current_user-locked :
      (token : String) (claims : Claims) (id now : ℕ) (w : World)
      → security.decode token now ≡ Decoded.payload claims
      → claims.sub ≡ some id
      → IsLocked id w
      → (e : Error) × (get_current_user security (some token) now w ≡ (err e, w))
  unfolding get_current_user
  get_current_user-locked token claims id now w decoded names (user, known, locked) =
      elim (Bool-cases (claims.kind == "access")) [
        | inl kind ↦ rw decoded (rw (kind, names) (rw known (rw locked (Error.auth_error, refl))))
        | inr other ↦ rw decoded (rw other (Error.token_invalid, refl))
      ]

  refresh_token-locked :
      (token : String) (claims : Claims) (id now seed : ℕ) (w : World) {s : UserSession}
      → security.decode token now ≡ Decoded.payload claims
      → claims.sub ≡ some id
      → find_first (has_token token) w.db.sessions ≡ some s
      → IsLocked id w
      → (e : Error) × (refresh_token security settings token now seed w ≡ (err e, w))
  unfolding refresh_token
  refresh_token-locked token claims id now seed w {s} decoded names found (user, known, locked) =
      elim (Bool-cases (claims.kind == "refresh")) [
        | inr other ↦ rw decoded (rw other (Error.token_invalid, refl))
        | inl kind ↦ elim (Bool-cases (is_valid now s)) [
          | inr old ↦ rw decoded (rw (kind, found, old) (Error.token_expired, refl))
          | inl valid ↦
              rw decoded
                (rw (kind, found, valid, names) (rw known (rw locked (Error.auth_error, refl))))
        ]
      ]

  login-locked :
      (email password : Text) (now seed : ℕ) (w : World) (user : User)
      → find_first (has_email email) w.db.users ≡ some user
      → user.is_active ≡ false
      → login security settings email password now seed w ≡ (err Error.auth_error, w)
  unfolding login
  login-locked email password now seed w user found locked =
      elim (Bool-cases (has_password security settings password user)) [
        | inl fits ↦ rw found (rw fits (rw locked refl))
        | inr wrong ↦ rw found (rw wrong refl)
      ]

  -- A super admin who suspends a user locks the user out at once: whatever tokens the user holds, a
  -- request with one is refused, and so is an exchange of one whose session is stored; a login with
  -- the user's e-mail address is refused, whatever the password.
  pub suspend_user-locks_out :
      (admin user : User) (reason : String) (at : ℕ) (w : World)
      → is_allowlisted settings admin.telegram_id ≡ true
      → find_first (is_user user.id) w.db.users ≡ some user
      → let (r, w') = suspend_user settings admin user.id reason at w in
        (r ≡ ok tt)
        × ((token : String) (claims : Claims) (now : ℕ)
            → security.decode token now ≡ Decoded.payload claims
            → claims.sub ≡ some user.id
            → (e : Error) × (get_current_user security (some token) now w' ≡ (err e, w')))
        × ((token : String) (claims : Claims) (now seed : ℕ) (s : UserSession)
            → security.decode token now ≡ Decoded.payload claims
            → claims.sub ≡ some user.id
            → find_first (has_token token) w.db.sessions ≡ some s
            → (e : Error) × (refresh_token security settings token now seed w' ≡ (err e, w')))
        × ((email password : Text) (now seed : ℕ)
            → find_first (has_email email) w.db.users ≡ some user
            → login security settings email password now seed w' ≡ (err Error.auth_error, w'))
  unfolding suspend_user
  suspend_user-locks_out admin user reason at w allowed known =
      let mine = find_first-holds (is_user user.id) w.db.users known in
      let locked =
        find_first-modify_first (is_user user.id) (suspended_user reason at) w.db.users known
          mine in
      let gone = suspended_user reason at user in
      rw (allowed, known)
        (
          refl,
          (λ token claims now decoded names.
              get_current_user-locked token claims user.id now _ decoded names
                (gone, locked, refl)),
          (λ token claims now seed s decoded names found.
              refresh_token-locked token claims user.id now seed _ {s = s} decoded names found
                (gone, locked, refl)),
          (λ email password now seed found.
              login-locked email password now seed _ gone
                (find_first-modify_same (is_user user.id) (has_email email)
                  (suspended_user reason at) w.db.users known found
                  (find_first-holds (has_email email) w.db.users found))
                refl),
        )
