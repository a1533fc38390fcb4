-- ===== src/Auth/Rotation.antt =====
-- The rotation of refresh tokens: `refresh_token` and `logout` of app/api/auth.py.
use ethiogram.Base.{
  ℕ, String, ◌≡◌, refl, true, false, none, some, Option, inl, inr, ◌⊎◌, Bool-cases, Option-cases,
  find_first, find_first-modify_first, find_first-holds, is_some, ◌==◌, eq_string,
}
use ethiogram.Models.{World, User, UserSession, Settings, Error}
use ethiogram.Request.{ok, err, Result, gets, or_raise, modify_db, ◌>>=◌, ◌>>◌}
use ethiogram.Auth.{
  Security, Decoded, TokenResponse, refresh_token, refresh_claims, valid_or_raise, has_token,
  revoke, revoke_session, is_valid, logout, answer_with, create_refresh_token, is_user, find_user,
  active_or_raise, open_session,
}

-- The session that a token names is there, and is revoked.
abbrev pub IsRevoked : String → World → Type 0
IsRevoked token w =
    (s : UserSession) × (find_first (has_token token) w.db.sessions ≡ some s)
    × (is_some s.revoked_at ≡ true)

logout-IsRevoked :
    (token : String) (now : ℕ) (w : World) (s : UserSession)
    → find_first (has_token token) w.db.sessions ≡ some s
    → IsRevoked token (logout token now w)
unfolding logout
logout-IsRevoked token now w s found = elim (Bool-cases (is_some s.revoked_at)) [
  | inl already ↦ rw found (rw already (s, found, already))
  | inr still ↦ rw found (
      rw still (
        revoke now s,
        find_first-modify_first (has_token token) (revoke now) w.db.sessions found
            (find_first-holds (has_token token) w.db.sessions found),
        refl,
      ))
]

module _ (security : Security) (settings : Settings) (token : String) where
  -- What follows the decoding, by the clauses of its result.
  abbrev after_decoding : Decoded → (now seed : ℕ) → World → Result TokenResponse × World
  after_decoding d now seed = (do
    claims ← refresh_claims security settings d
    found ← gets (λ w. find_first (has_token token) w.db.sessions)
    session ← valid_or_raise security settings now found
    user_id ← or_raise claims.sub Error.value_error
    account ← find_user user_id
    user ← active_or_raise account
    modify_db (revoke_session token now)
    open_session security settings user session.platform now seed)

  after_revoked :
      (d : Decoded) (now seed : ℕ) (w : World)
      → IsRevoked token w
      → (e : Error) × (after_decoding d now seed w ≡ (err e, w))
  after_revoked Decoded.expired_signature now seed w h = (Error.token_invalid, refl)
  after_revoked Decoded.invalid_token now seed w h = (Error.token_invalid, refl)
  after_revoked (Decoded.payload claims) now seed w (s, found, revoked) =
      elim (Bool-cases (claims.kind == "refresh")) [
        | inl kind ↦ rw kind (rw found (rw revoked (Error.token_expired, refl)))
        | inr other ↦ rw other (Error.token_invalid, refl)
      ]

  -- A revoked token buys nothing.
  pub refresh_token-revoked :
      (now seed : ℕ) (w : World)
      → IsRevoked token w
      → (e : Error) × (refresh_token security settings token now seed w ≡ (err e, w))
  unfolding refresh_token
  refresh_token-revoked now seed w h = after_revoked (security.decode token now) now seed w h

  -- The session after the rotation, below the new one.
  rotated-IsRevoked :
      (user : User) (platform : String) (now seed : ℕ) (w : World) (s : UserSession)
      → (create_refresh_token security settings user.id now seed == token ≡ false)
      → find_first (has_token token) w.db.sessions ≡ some s
      → IsRevoked token
          (open_session security settings user platform now seed
            (record w { db = revoke_session token now w.db })).1
  rotated-IsRevoked user platform now seed w s new found = rw new (
    revoke now s,
    find_first-modify_first (has_token token) (revoke now) w.db.sessions found
        (find_first-holds (has_token token) w.db.sessions found),
    refl,
  )

  abbrev Rotates : World → Result TokenResponse × World → Type 0
  Rotates w (r, w') =
      ((e : Error) × (r ≡ err e) × (w' ≡ w))
      ⊎ ((t : TokenResponse) × (r ≡ ok t) × IsRevoked token w')

  -- What follows the test of the session.
  abbrev exchange : Option ℕ → String → (now seed : ℕ) → World → Result TokenResponse × World
  exchange sub platform now seed = (do
    user_id ← or_raise sub Error.value_error
    account ← find_user user_id
    user ← active_or_raise account
    modify_db (revoke_session token now)
    open_session security settings user platform now seed)

  exchange_cases :
      (sub : Option ℕ) (now seed : ℕ) (w : World) (s : UserSession)
      → ((id : ℕ) → (create_refresh_token security settings id now seed == token) ≡ false)
      → find_first (has_token token) w.db.sessions ≡ some s
      → Rotates w (exchange sub s.platform now seed w)
  exchange_cases none now seed w s new found = inl (Error.value_error, refl, refl)
  exchange_cases (some id) now seed w s new found =
      elim (Option-cases (find_first (is_user id) w.db.users)) [
        | inl missing ↦ rw missing (inl (Error.auth_error, refl, refl))
        | inr (user, known) ↦ elim (Bool-cases user.is_active) [
          | inr locked ↦ rw known (rw locked (inl (Error.auth_error, refl, refl)))
          | inl active ↦
              let token' = create_refresh_token security settings user.id now seed in
              rw known (
                rw active (
                  inr (
                    answer_with security settings user token' now,
                    refl,
                    rotated-IsRevoked user s.platform now seed w s (new user.id) found,
                  )))
        ]
      ]

  session_cases :
      (d : Decoded) (now seed : ℕ) (w : World)
      → ((id : ℕ) → (create_refresh_token security settings id now seed == token) ≡ false)
      → Rotates w (after_decoding d now seed w)
  session_cases Decoded.expired_signature now seed w new = inl (Error.token_invalid, refl, refl)
  session_cases Decoded.invalid_token now seed w new = inl (Error.token_invalid, refl, refl)
  session_cases (Decoded.payload claims) now seed w new =
      elim (Bool-cases (claims.kind == "refresh")) [
        | inr other ↦ rw other (inl (Error.token_invalid, refl, refl))
        | inl kind ↦ elim (Option-cases (find_first (has_token token) w.db.sessions)) [
          | inl missing ↦ rw (kind, missing) (inl (Error.token_expired, refl, refl))
          | inr (s, found) ↦ elim (Bool-cases (is_valid now s)) [
            | inr old ↦ rw (kind, found, old) (inl (Error.token_expired, refl, refl))
            | inl valid ↦ rw (kind, found, valid) (exchange_cases claims.sub now seed w s new found)
          ]
        ]
      ]

  -- If no new token is the given one, a refresh either fails and changes nothing, or it answers with
  -- new tokens, and any later refresh with the same token fails and changes nothing.
  pub refresh_token_once :
      (now seed : ℕ) (w : World)
      → ((id : ℕ) → (create_refresh_token security settings id now seed == token) ≡ false)
      → let (r, w') = refresh_token security settings token now seed w in
        ((e : Error) × (r ≡ err e) × (w' ≡ w))
        ⊎ ((t : TokenResponse) × (r ≡ ok t)
            × ((now' seed' : ℕ)
                → (e : Error) × (refresh_token security settings token now' seed' w'
                    ≡ (err e, w'))))
  unfolding refresh_token
  refresh_token_once now seed w new =
      elim (session_cases (security.decode token now) now seed w new) [
        | inl failed ↦ inl failed
        | inr (t, answered, revoked) ↦
            inr (t, answered, λ now' seed'. refresh_token-revoked now' seed' _ revoked)
      ]

  -- After a logout with a token that names a session, the token buys nothing.
  pub logout-refresh_token :
      (now now' seed : ℕ) (w : World) {s : UserSession}
      → find_first (has_token token) w.db.sessions ≡ some s
      → let w' = logout token now w in
        (e : Error) × (refresh_token security settings token now' seed w' ≡ (err e, w'))
  logout-refresh_token now now' seed w {s} found =
      refresh_token-revoked now' seed (logout token now w) (logout-IsRevoked token now w s found)
