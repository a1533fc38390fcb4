-- ===== src/Messages/Accounts.antt =====
-- The whole of `telegram_webhook` in app/api/webhooks.py keeps the customers' balances.
use mathlib.Core.Path.{subst}
use ethiogram.Base.{
  ℕ, ◌≡◌, refl, sym, eq_string, Bool, true, false, Option, none, some, arith, find_first,
  if◌then◌else◌,
}
use ethiogram.Models.{World, is_active, Bot, Conversation}
use ethiogram.Request.{transaction}
use ethiogram.Request.Preserves.{Preserves, transaction-Preserves}
use ethiogram.Messages.{
  Envelope, Update, Services, write_conversation, write_bot, bot_should_block, handle_zero_balance,
  get_or_create_conversation, ensure_conversation, is_customer, starve, telegram_webhook,
}
use ethiogram.Messages.Solvency.{IsSolvent, IsSolvent-same, write-IsSolvent, get_balance-db}
use ethiogram.Messages.Keeps.{Steps, telegram_webhook-Keeps}
use ethiogram.Messages.Answers.{LeavesAccounts, keeps-IsSolvent, bill-IsSolvent}

module _ (services : Services) (leaves : LeavesAccounts services) (now : ℕ) where
  get_or_create-IsSolvent :
      (bot : Bot) (e : Envelope) → Preserves IsSolvent (get_or_create_conversation bot e)
  unfolding get_or_create_conversation
  get_or_create-IsSolvent bot e w h = go (find_first (is_customer bot e) w.db.conversations)
    where
      go : (o : Option Conversation) → IsSolvent (ensure_conversation bot e o w).1.db
      go none = (omega arith, h)
      go (some c) = h

  handle_zero_balance-IsSolvent :
      (bot : Bot) (w : World) → IsSolvent w.db → IsSolvent (handle_zero_balance bot now w).db
  unfolding handle_zero_balance
  handle_zero_balance-IsSolvent bot w h = either (is_active bot.status)
    where
      either :
          (active : Bool)
          → IsSolvent
              (if active then record w { db = write_bot bot.id (starve now) w.db } else w).db
      either true = h
      either false = h

  bot_should_block-conversations :
      (bot : Bot) (w : World) → (bot_should_block bot w).1.db.conversations ≡ w.db.conversations
  unfolding bot_should_block
  bot_should_block-conversations bot w = ground arith

  IsSolvent-steps : Steps services now (λ w. IsSolvent w.db)
  IsSolvent-steps = record {
    platform = λ e w h. IsSolvent-same w.db (services.platform_menu e w).db (leaves.platform e w) h;
    add_product = λ e b. keeps-IsSolvent (services.add_product e b) (leaves.add_product e b);
    owner_menu = λ e b. keeps-IsSolvent (services.owner_menu e b) (leaves.owner_menu e b);
    mark = λ b k w h. h;
    block = λ bot w h.
        IsSolvent-same w.db (bot_should_block bot w).1.db (bot_should_block-conversations bot w) h;
    balance = λ b w h. subst IsSolvent (sym (get_balance-db b w)) h;
    starve = handle_zero_balance-IsSolvent;
    create = get_or_create-IsSolvent;
    speak = λ id language w h.
        write-IsSolvent id (λ c. record c { detected_language = language }) (λ c. refl) w.db
          (write_conversation id (λ c. record c { detected_language = language }) w).1.db refl h;
    bill = bill-IsSolvent services leaves now;
  }

-- If no customer's balance with a business is below zero, then none is after the bot has handled any
-- update, with its answer, its price and its record, where the flows that the pipeline calls leave the
-- conversations alone.
pub telegram_webhook-IsSolvent :
    (services : Services) (u : Update) (now : ℕ) (w : World)
    → LeavesAccounts services
    → IsSolvent w.db
    → IsSolvent (transaction (telegram_webhook services u now) w).1.db
telegram_webhook-IsSolvent services u now w leaves h =
    transaction-Preserves IsSolvent (telegram_webhook services u now)
      (telegram_webhook-Keeps services now (λ w. IsSolvent w.db)
        (IsSolvent-steps services leaves now) u)
      w h
