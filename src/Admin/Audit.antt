-- ===== src/Admin/Audit.antt =====
-- `_require_super_admin` and `_audit` of app/api/admin.py, and `_audit` of app/api/admin_panel.py.
use ethiogram.Base.{String, not, ◌∷◌}
use ethiogram.Models.{User, Settings, Error}
use ethiogram.Request.{Action, raise_if, modify_db}
use ethiogram.Auth.{is_allowlisted}

abbrev pub require_super_admin : Settings → User → Action Unit
require_super_admin settings user =
    raise_if (not (is_allowlisted settings user.telegram_id)) Error.super_admin_required

-- The target, the values and the reason are left out.
abbrev pub audit : User → (action target_type : String) → Action Unit
audit admin action target_type = modify_db (λ db. record db {
  audit_log =
      record { admin_id = admin.id; action = action; target_type = target_type } ∷ db.audit_log;
})
