-- ===== src/Models/Accounts.antt =====
-- The rows of sessions, of the audit log and of platform settings in app/db/models.py.
use ethiogram.Base.{ℕ, String, Option}

-- `expires_at` and `revoked_at` are instants.
pub record UserSession : Type 0 where
  pub user_id : ℕ
  pub refresh_token : String
  pub expires_at : ℕ
  pub revoked_at : Option ℕ
  pub platform : String

-- The changed values and the reason are left out.
pub record AdminAuditLog : Type 0 where
  pub admin_id : ℕ
  pub action : String
  pub target_type : String
