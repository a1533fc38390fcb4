-- ===== src/Bots/Owned.antt =====
-- What an owner does with a bot: app/api/bots.py, and `offboard_bot` of app/services/bot_onboarding.py.
use ethiogram.Base.{
  ℕ, String, Bool, not, ◌&&◌, Option, none, some, is_some, find_first, nat_eq, ◌==◌, eq_string,
  if◌then◌else◌,
}
use ethiogram.Models.{Db, Bot, BotStatus, Business, Error}
use ethiogram.Request.{Action, gets, or_raise, raise_if, modify_db, ◌>>=◌, ◌>>◌}
use ethiogram.Messages.{is_bot, write_bot}

-- Whether the business is the user's. A suspended or deleted one counts.
abbrev pub belongs_to : (user_id business_id : ℕ) → Db → Bool
belongs_to user_id business_id db = is_some (
    find_first (λ (b : Business). nat_eq b.id business_id && nat_eq b.owner_id user_id)
      db.businesses)

abbrev pub is_own_bot : (bot_id user_id : ℕ) → Db → Bot → Bool
is_own_bot bot_id user_id db bot = is_bot bot_id bot && belongs_to user_id bot.business_id db

abbrev pub get_owned_bot : (bot_id user_id : ℕ) → Action Bot
get_owned_bot bot_id user_id = do
  found ← gets (λ w. find_first (is_own_bot bot_id user_id w.db) w.db.bots)
  or_raise found (Error.not_found "Bot")

-- `BotStatusUpdate.validated_status`
abbrev pub validated_status : String → Option BotStatus
validated_status status =
    if status == "active"
    then some BotStatus.active
    else if status == "paused"
    then some BotStatus.paused
    else none

abbrev pub with_status : BotStatus → Bot → Bot
with_status status bot = record bot { status = status }

unfoldable pub update_bot_status : (bot_id user_id : ℕ) → (status : String) → Action Unit
update_bot_status bot_id user_id status = do
  bot ← get_owned_bot bot_id user_id
  status ← or_raise (validated_status status) (Error.validation_error "status")
  modify_db (write_bot bot.id (with_status status))

abbrev pub disconnected_bot : Bot → Bot
disconnected_bot bot = record bot {
  status = BotStatus.disconnected;
  webhook_url = none;
  webhook_secret = none;
}

-- `decrypts` is whether the bot's token can be decrypted. The call to Telegram may fail, which is only
-- logged.
unfoldable pub disconnect_bot : (decrypts : Bot → Bool) → (bot_id user_id : ℕ) → Action Unit
disconnect_bot decrypts bot_id user_id = do
  bot ← get_owned_bot bot_id user_id
  raise_if (not (decrypts bot)) Error.value_error
  modify_db (write_bot bot.id disconnected_bot)

-- `accepted` is whether Telegram takes the address and the secret.
unfoldable pub refresh_webhook :
    (decrypts accepted : Bot → Bool) → (bot_id user_id : ℕ) → (new_secret : String) → Action Unit
refresh_webhook decrypts accepted bot_id user_id new_secret = do
  bot ← get_owned_bot bot_id user_id
  raise_if (not (decrypts bot)) Error.value_error
  raise_if (not (accepted bot)) Error.telegram_api_error
  modify_db (write_bot bot.id (λ bot. record bot { webhook_secret = some new_secret }))
