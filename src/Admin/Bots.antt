-- ===== src/Admin/Bots.antt =====
-- The control of bots and wallets in app/api/admin.py. `now` is the clock.
use ethiogram.Base.{
  ℕ, String, Bool, none, some, false, is_some, not, find_first, modify_first, nat_eq,
}
use ethiogram.Base.Int.{ℤ, pos}
use ethiogram.Models.{User, Bot, BotStatus, Settings, Error}
use ethiogram.Request.{Action, ok, raise_if, gets, modify_db, ◌>>=◌, ◌>>◌}
use ethiogram.Metering.{Credit, credit}
use ethiogram.Messages.{is_bot}
use ethiogram.Admin.Audit.{require_super_admin, audit}

abbrev pub known_bot : ℕ → Action Unit
known_bot id = do
  known ← gets (λ w. is_some (find_first (is_bot id) w.db.bots))
  raise_if (not known) (Error.not_found "Bot")

abbrev pub suspended_bot : (reason : String) → (now : ℕ) → Bot → Bot
suspended_bot reason now bot = record bot {
  status = BotStatus.suspended;
  suspended_at = some now;
  suspension_reason = some reason;
}

abbrev pub restored_bot : Bot → Bot
restored_bot bot = record bot {
  status = BotStatus.active;
  suspended_at = none;
  suspension_reason = none;
}

unfoldable pub suspend_bot :
    (current_admin : User) → (bot_id : ℕ) → (reason : String) → (now : ℕ) → Action Unit
suspend_bot current_admin bot_id reason now = do
  known_bot bot_id
  modify_db
      (λ db. record db { bots = modify_first (is_bot bot_id) (suspended_bot reason now) db.bots })
  audit current_admin "suspend_bot" "bot"

unfoldable pub restore_bot : (current_admin : User) → (bot_id : ℕ) → Action Unit
restore_bot current_admin bot_id = do
  known_bot bot_id
  modify_db (λ db. record db { bots = modify_first (is_bot bot_id) restored_bot db.bots })
  audit current_admin "restore_bot" "bot"

abbrev pub is_zero : ℤ → Bool
is_zero (pos n) = nat_eq n 0
is_zero (ℤ.negsuc n) = false

-- A negative amount deducts. The description also names the reason.
abbrev pub grant : User → ℤ → Credit
grant admin amount = record {
  amount = amount;
  description = "Admin grant";
  reference_type = "admin_grant";
  reference_id = none;
  admin_id = some admin.id;
}

unfoldable pub grant_etg :
    Settings → (current_admin : User) → (business_id : ℕ) → (amount : ℤ) → Action Unit
unfolding credit
grant_etg settings current_admin business_id amount = do
  require_super_admin settings current_admin
  raise_if (is_zero amount) (Error.validation_error "Amount cannot be zero")
  (λ w. (ok tt, (credit business_id (grant current_admin amount) w).1))
  audit current_admin "wallet_grant" "wallet"
