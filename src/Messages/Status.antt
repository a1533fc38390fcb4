-- ===== src/Messages/Status.antt =====
-- The state of a bot while it answers, in app/api/webhooks.py: the block, the recovery from grace, the
-- empty wallet, and the alerts after a charge.
use ethiogram.Base.{
  ℕ, Bool, true, false, Option, none, some, lookup, insert, delete, modify_first, nat_eq, eq_nat,
  if◌then◌else◌,
}
use ethiogram.Base.Int.{ℤ, pos, ltb_ℤ}
use ethiogram.Models.{World, Db, Bot, BotStatus, is_grace, is_paused, is_active, AlertType}
use ethiogram.Metering.{db_balance, log_alert, due_alert}

abbrev pub is_bot : ℕ → Bot → Bool
is_bot id b = nat_eq b.id id

abbrev pub write_bot : ℕ → (Bot → Bot) → Db → Db
write_bot id f db = record db { bots = modify_first (is_bot id) f db.bots }

abbrev pub revive : Bot → Bot
revive b = record b { status = BotStatus.active; grace_period_started_at = none }

abbrev pub starve : ℕ → Bot → Bot
starve now b = record b { status = BotStatus.grace; grace_period_started_at = some now }

-- The bot out of grace, its alert and its cached balance forgotten.
abbrev pub recover : Bot → World → World
recover b w = record w {
  db = write_bot b.id revive w.db;
  redis = record w.redis {
    alert_sent = delete b.business_id w.redis.alert_sent;
    balances = delete b.business_id w.redis.balances;
  };
}

-- `if fresh and fresh > 0`, where a missing wallet counts as 0.
unfoldable pub bot_should_block : Bot → World → Bool × World
bot_should_block b w =
    if is_grace b.status
    then (if ltb_ℤ (pos 0) (db_balance b.business_id w.db) then (false, recover b w) else (true, w))
    else (is_paused b.status, w)

unfoldable pub handle_zero_balance : Bot → ℕ → World → World
handle_zero_balance b now w =
    if is_active b.status then record w { db = write_bot b.id (starve now) w.db } else w

abbrev starve_at : AlertType → Bot → ℕ → Db → Db
starve_at AlertType.zero b now db = write_bot b.id (starve now) db
starve_at _ b now db = db

-- The row of the alert, its mark, and at zero the bot in grace, whatever its status was.
abbrev pub raise_alert : ℕ → ℤ → Bot → ℕ → Option AlertType → World → World
raise_alert business_id balance b now none w = w
raise_alert business_id balance b now (some level) w = record {
  db = starve_at level b now (log_alert business_id level balance w.db);
  redis = record w.redis { alert_sent = insert business_id level w.redis.alert_sent };
}

-- The tests are those of `MeteringService.trigger_alerts_if_needed`, on thresholds of the same value.
unfoldable pub check_wallet_alerts : ℕ → ℤ → Bot → ℕ → World → World
unfolding due_alert log_alert
check_wallet_alerts business_id new_balance b now w =
    raise_alert business_id new_balance b now
      (due_alert new_balance (lookup business_id w.redis.alert_sent)) w
