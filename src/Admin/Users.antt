-- ===== src/Admin/Users.antt =====
-- The control of users in app/api/admin.py and of admins in app/api/admin_panel.py.
use ethiogram.Base.{
  ℕ, String, Bool, true, false, not, ◌&&◌, none, some, is_some, find_first, modify_first, nat_eq,
  if◌then◌else◌,
}
use ethiogram.Models.{User, UserRole, is_admin_role, Settings, Error}
use ethiogram.Request.{Action, raise_if, gets, modify_db, ◌>>=◌, ◌>>◌}
use ethiogram.Auth.{is_user}
use ethiogram.Admin.Audit.{require_super_admin, audit}

abbrev pub known_user : ℕ → Action Unit
known_user id = do
  known ← gets (λ w. is_some (find_first (is_user id) w.db.users))
  raise_if (not known) (Error.not_found "User")

abbrev pub write_user : ℕ → (User → User) → Action Unit
write_user id change =
    modify_db (λ db. record db { users = modify_first (is_user id) change db.users })

abbrev pub suspended_user : (reason : String) → (now : ℕ) → User → User
suspended_user reason now user = record user {
  is_active = false;
  suspended_at = some now;
  suspension_reason = some reason;
}

abbrev pub restored_user : User → User
restored_user user = record user { is_active = true; suspended_at = none; suspension_reason = none }

unfoldable pub suspend_user :
    Settings → (current_admin : User) → (user_id : ℕ) → (reason : String) → (now : ℕ) → Action Unit
suspend_user settings current_admin user_id reason now = do
  require_super_admin settings current_admin
  known_user user_id
  write_user user_id (suspended_user reason now)
  audit current_admin "suspend_user" "user"

unfoldable pub restore_user : Settings → (current_admin : User) → (user_id : ℕ) → Action Unit
restore_user settings current_admin user_id = do
  require_super_admin settings current_admin
  known_user user_id
  write_user user_id restored_user
  audit current_admin "restore_user" "user"

-- The role is kept consistent with the flag.
abbrev pub role_for : (is_admin : Bool) → UserRole → UserRole
role_for is_admin role =
    if is_admin then UserRole.admin else if is_admin_role role then UserRole.owner else role

abbrev pub with_admin : Bool → User → User
with_admin is_admin user = record user { is_admin = is_admin; role = role_for is_admin user.role }

unfoldable pub set_user_admin :
    (current_admin : User) → (user_id : ℕ) → (is_admin : Bool) → Action Unit
set_user_admin current_admin user_id is_admin = do
  raise_if (nat_eq user_id current_admin.id && not is_admin)
      (Error.validation_error "You can't revoke your own admin access")
  known_user user_id
  write_user user_id (with_admin is_admin)
  audit current_admin "user.set_admin" "user"
