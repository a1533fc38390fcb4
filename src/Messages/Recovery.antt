-- ===== src/Messages/Recovery.antt =====
-- How a bot that ran dry gets back to work in app/api/webhooks.py.
use ethiogram.Base.{
  ◌≡◌, refl, ◌∙◌, true, false, none, some, arith, lookup, lookup-delete_self, find_first,
  find_first-holds, find_first-modify_first, eq_nat, eq_string,
}
use ethiogram.Base.Int.{ℤ, pos, ◌+ℤ◌, ◌≤ℤ◌, ltb_ℤ}
use ethiogram.Models.{World, Bot, BotStatus, is_grace}
use ethiogram.Metering.{db_balance, get_balance, Credit, credit}
use ethiogram.Metering.Totals.{db_balance-credit, credit-bots, get_balance-missed}
use ethiogram.Messages.{is_bot, revive, recover, bot_should_block}

positive : (v : ℤ) → pos 1 ≤ℤ v → ltb_ℤ (pos 0) v ≡ true
positive v h = ground arith

-- A bot in grace whose wallet is credited above zero answers the next message: the message is not
-- blocked, the bot is active again, its alert is forgotten, and the balance that gates the message is
-- the database's, whatever the cache held.
pub bot_should_block-credit :
    (bot : Bot) (c : Credit) (w : World)
    → is_grace bot.status ≡ true
    → find_first (is_bot bot.id) w.db.bots ≡ some bot
    → pos 1 ≤ℤ db_balance bot.business_id w.db +ℤ c.amount
    → let (blocked, w') = bot_should_block bot (credit bot.business_id c w).1 in
      (blocked ≡ false)
      × (find_first (is_bot bot.id) w'.db.bots
          ≡ some (record bot { status = BotStatus.active; grace_period_started_at = none }))
      × (lookup bot.business_id w'.redis.alert_sent ≡ none)
      × ((get_balance bot.business_id w').0 ≡ db_balance bot.business_id w.db +ℤ c.amount)
unfolding bot_should_block
bot_should_block-credit bot c w grace row enough =
    let w₁ = (credit bot.business_id c w).1 in
    let balance = db_balance-credit bot.business_id c w in
    let funded : ltb_ℤ (pos 0) (db_balance bot.business_id w₁.db) ≡ true =
      positive _ (rw balance enough) in
    let row₁ : find_first (is_bot bot.id) w₁.db.bots ≡ some bot =
      rw (credit-bots bot.business_id c w) row in
    rw grace (
      rw funded (
        refl,
        find_first-modify_first (is_bot bot.id) revive w₁.db.bots row₁
            (find_first-holds (is_bot bot.id) w₁.db.bots row₁),
        lookup-delete_self bot.business_id w₁.redis.alert_sent,
        get_balance-missed bot.business_id (recover bot w₁)
              (lookup-delete_self bot.business_id w₁.redis.balances)
            ∙ balance,
      ))
