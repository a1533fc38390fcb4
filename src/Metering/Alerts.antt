-- ===== src/Metering/Alerts.antt =====
-- The wallet alerts of app/core/metering.py: low, critical, zero, each sent once while the Redis key
-- `wallet:alert_sent:<business>` remembers it.
use ethiogram.Base.{
  ℕ, Bool, true, false, not, ◌&&◌, Option, none, some, List, ◌∷◌, lookup, insert, modify_first,
  nat_eq, eq_nat, if◌then◌else◌,
}
use ethiogram.Base.Int.{ℤ, pos, leb_ℤ}
use ethiogram.Models.{World, Db, TokenWallet, WalletAlert, AlertType, Bot, BotStatus, is_active}
use ethiogram.Metering.Balance.{find_wallet}

-- `_ALERT_THRESHOLDS`. It has no entry for `paused`, and no code asks for one.
abbrev pub threshold : AlertType → ℤ
threshold AlertType.low = pos 500
threshold AlertType.critical = pos 100
threshold _ = pos 0

-- `last_sent in ("low", "critical", "zero")` and its two shorter forms: whether an alert of this
-- level, or of a graver one, has been sent.
abbrev pub sent_at_least : AlertType → Option AlertType → Bool
sent_at_least _ none = false
sent_at_least AlertType.zero (some AlertType.zero) = true
sent_at_least AlertType.zero (some _) = false
sent_at_least AlertType.critical (some AlertType.zero) = true
sent_at_least AlertType.critical (some AlertType.critical) = true
sent_at_least AlertType.critical (some _) = false
sent_at_least AlertType.low (some AlertType.paused) = false
sent_at_least AlertType.low (some _) = true
sent_at_least AlertType.paused (some _) = false

abbrev reaches : AlertType → ℤ → Option AlertType → Bool
reaches level balance last_sent =
    leb_ℤ balance (threshold level) && not (sent_at_least level last_sent)

-- The chain of `if` and `elif`: the alert that is sent, if one is.
unfoldable pub due_alert : ℤ → Option AlertType → Option AlertType
due_alert balance last_sent =
    if reaches AlertType.zero balance last_sent
    then some AlertType.zero
    else if reaches AlertType.critical balance last_sent
    then some AlertType.critical
    else if reaches AlertType.low balance last_sent
    then some AlertType.low
    else none

abbrev pub log_row : AlertType → ℤ → Option TokenWallet → List WalletAlert → List WalletAlert
log_row level balance none alerts = alerts
log_row level balance (some wallet) alerts =
    record { wallet_id = wallet.id; alert_type = level; balance_at_alert = balance } ∷ alerts

unfoldable pub log_alert : ℕ → AlertType → ℤ → Db → Db
log_alert business_id level balance db = record db {
  alerts = log_row level balance (find_wallet business_id db) db.alerts;
}

abbrev to_grace : ℕ → Bot → Bot
to_grace now bot = record bot { status = BotStatus.grace; grace_period_started_at = some now }

-- `if bot and bot.status == BotStatus.active: bot.status = BotStatus.grace`, for the bot's row.
abbrev grace_bot : ℕ → Option Bot → Db → Db
grace_bot now none db = db
grace_bot now (some bot) db =
    if is_active bot.status
    then record db { bots = modify_first (λ b. nat_eq b.id bot.id) (to_grace now) db.bots }
    else db

abbrev pub grace_at : AlertType → ℕ → Option Bot → Db → Db
grace_at AlertType.zero now bot db = grace_bot now bot db
grace_at _ now bot db = db

abbrev pub send_alert : ℕ → Option AlertType → ℤ → Option Bot → ℕ → World → World
send_alert business_id none balance bot now w = w
send_alert business_id (some level) balance bot now w = record {
  db = grace_at level now bot (log_alert business_id level balance w.db);
  redis = record w.redis { alert_sent = insert business_id level w.redis.alert_sent };
}

unfoldable pub trigger_alerts_if_needed : ℕ → ℤ → Option Bot → ℕ → World → World
unfolding due_alert log_alert
trigger_alerts_if_needed business_id new_balance bot now w =
    send_alert business_id (due_alert new_balance (lookup business_id w.redis.alert_sent))
      new_balance bot now w
