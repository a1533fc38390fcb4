-- ===== src/Bots/Control.antt =====
-- The owner's control of a bot in app/api/bots.py against the admin's in app/api/admin.py, and against
-- the webhook of app/api/webhooks.py.
use ethiogram.Base.{
  ℕ, String, ◌≡◌, refl, some, find_first, find_first-modify_first, find_first-modify_same,
  find_first-holds, modify_first,
}
use ethiogram.Models.{World, User, Bot, BotStatus}
use ethiogram.Request.{ok}
use ethiogram.Messages.{is_bot}
use ethiogram.Admin.{suspend_bot, suspended_bot}
use ethiogram.Bots.{is_own_bot, update_bot_status, with_status}

-- An admin's suspension of a bot holds only until the owner sets the bot to active: the owner's request
-- succeeds, and the bot is active again, with the reason of its suspension still on it.
pub suspend_bot-update_bot_status :
    (admin : User) (user_id : ℕ) (reason : String) (at : ℕ) (w : World) {bot : Bot}
    → find_first (is_bot bot.id) w.db.bots ≡ some bot
    → find_first (is_own_bot bot.id user_id w.db) w.db.bots ≡ some bot
    → let (suspended, w₁) = suspend_bot admin bot.id reason at w in
      let (resumed, w₂) = update_bot_status bot.id user_id "active" w₁ in
      (suspended ≡ ok tt)
      × (resumed ≡ ok tt)
      × (find_first (is_bot bot.id) w₁.db.bots ≡ some (suspended_bot reason at bot))
      × (find_first (is_bot bot.id) w₂.db.bots
          ≡ some (record (suspended_bot reason at bot) { status = BotStatus.active }))
unfolding suspend_bot update_bot_status
suspend_bot-update_bot_status admin user_id reason at w {bot} row own =
    let mine = find_first-holds (is_bot bot.id) w.db.bots row in
    let gone = suspended_bot reason at bot in
    let bots = modify_first (is_bot bot.id) (suspended_bot reason at) w.db.bots in
    let found : find_first (is_bot bot.id) bots ≡ some gone =
      find_first-modify_first (is_bot bot.id) (suspended_bot reason at) w.db.bots row mine in
    let still : find_first (is_own_bot bot.id user_id w.db) bots ≡ some gone =
      find_first-modify_same (is_bot bot.id) (is_own_bot bot.id user_id w.db)
        (suspended_bot reason at) w.db.bots row own
        (find_first-holds (is_own_bot bot.id user_id w.db) w.db.bots own) in
    rw row (
      rw still (
        refl,
        refl,
        found,
        find_first-modify_first (is_bot bot.id) (with_status BotStatus.active) bots found mine,
      ))
