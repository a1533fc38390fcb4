-- ===== src/Admin/Rights.antt =====
-- `set_user_admin` of app/api/admin_panel.py against the guard of its handlers in app/api/deps.py.
use ethiogram.Base.{
  ◌≡◌, refl, sym, ◌⊎◌, if◌then◌else◌, Bool-cases, true, false, Bool, not, ◌&&◌, ◌||◌, some, inl,
  inr, arith, find_first, find_first-modify_first, find_first-holds, nat_eq,
}
use ethiogram.Models.{World, User, UserRole, Settings, Error}
use ethiogram.Request.{ok, err, pure, raise_if, ◌>>◌}
use ethiogram.Auth.{is_user, is_allowlisted, is_panel_admin, get_current_admin_user}
use ethiogram.Admin.{set_user_admin, with_admin}

is_panel_admin-with_admin :
    (settings : Settings) (is_admin : Bool) (user : User)
    → is_panel_admin settings (with_admin is_admin user)
      ≡ (is_admin || is_allowlisted settings user.telegram_id)
is_panel_admin-with_admin settings true user = refl
is_panel_admin-with_admin settings false user = role_cases user.role refl
  where
    role_cases :
        (role : UserRole)
        → user.role ≡ role
        → is_panel_admin settings (with_admin false user) ≡ is_allowlisted settings user.telegram_id
    role_cases UserRole.owner e = rw e refl
    role_cases UserRole.creator e = rw e refl
    role_cases UserRole.admin e = rw e refl
    role_cases UserRole.support e = rw e refl

-- For a user who exists, either the request would take the admin's own rights and is refused, with no
-- effect, or it succeeds, and after it the admin panel lets the user in if and only if the rights were
-- given or the user's Telegram id is on the allowlist: for such a user a withdrawal has no effect.
pub set_user_admin_lem :
    (settings : Settings) (admin user : User) (is_admin : Bool) (w : World)
    → find_first (is_user user.id) w.db.users ≡ some user
    → let (r, w') = set_user_admin admin user.id is_admin w in
      ((user.id ≡ admin.id)
        × (is_admin ≡ false)
        × (r ≡ err (Error.validation_error "You can't revoke your own admin access"))
        × (w' ≡ w))
      ⊎ ((user' : User) × (r ≡ ok tt)
          × (find_first (is_user user.id) w'.db.users ≡ some user')
          × (get_current_admin_user settings user' w' ≡ (
            if is_admin || is_allowlisted settings user.telegram_id
                then ok user'
                else err Error.admin_required,
            w',
          )))
unfolding set_user_admin get_current_admin_user
set_user_admin_lem settings admin user is_admin w known =
    elim (Bool-cases (nat_eq user.id admin.id && not is_admin)) [
      | inl own ↦ rw own (inl (ground (arith, own), ground (arith, own), refl, refl))
      | inr other ↦
          let found =
            find_first-modify_first (is_user user.id) (with_admin is_admin) w.db.users known
              (find_first-holds (is_user user.id) w.db.users known) in
          rw (other, known)
            (inr (
              with_admin is_admin user,
              refl,
              found,
              admitted _ _ _ _ (is_panel_admin-with_admin settings is_admin user),
            ))
    ]
  where
    admitted :
        (panel allowed : Bool) (user' : User) (w' : World)
        → panel ≡ allowed
        → (raise_if (not panel) Error.admin_required >> pure user') w'
          ≡ (if allowed then ok user' else err Error.admin_required, w')
    admitted false allowed user' w' e = rw (sym e) refl
    admitted true allowed user' w' e = rw (sym e) refl
