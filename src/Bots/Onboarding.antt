-- ===== src/Bots/Onboarding.antt =====
-- `onboard_bot` of app/services/bot_onboarding.py, behind the guard of app/api/bots.py.
use ethiogram.Base.{
  ℕ, ◌+◌, String, Bool, not, Option, none, some, is_some, ◌∷◌, delete, find_first, ◌==◌, eq_string,
  eq_nat,
}
use ethiogram.Base.Int.{pos}
use ethiogram.Models.{World, Db, Bot, BotStatus, TokenWallet, EtgTransaction, Settings, uuid, Error}
use ethiogram.Request.{Action, ok, pure, gets, raise_if, modify_db, ◌>>=◌, ◌>>◌}
use ethiogram.Metering.{new_wallet, find_wallet}
use ethiogram.Transfers.{Characters}
use ethiogram.Auth.{is_user}
use ethiogram.Credits.{redeem}
use ethiogram.Bots.Owned.{belongs_to}

-- Telegram's two calls (whether `getMe` knows the token, whether `setWebhook` takes the address), the
-- hash of a token, the address of its webhook and a new secret.
pub record Telegram : Type 0 where
  pub knows : String → Bool
  pub takes_webhook : String → Bool
  pub hash_bot_token : String → String
  pub webhook_url : String → String
  pub new_secret : String

abbrev pub has_hash : String → Bot → Bool
has_hash token_hash bot = bot.token_hash == token_hash

abbrev pub new_bot : Telegram → (id business_id : ℕ) → String → Bot
new_bot telegram id business_id token_hash = record {
  id = id;
  business_id = business_id;
  token_hash = token_hash;
  webhook_url = some (telegram.webhook_url token_hash);
  webhook_secret = some telegram.new_secret;
  status = BotStatus.active;
  grace_period_started_at = none;
  suspended_at = none;
  suspension_reason = none;
  total_messages_processed = 0;
  total_etg_consumed = 0;
  last_message_at = none;
}

abbrev pub add_bot : Bot → Db → Db
add_bot bot db = record db { next_id = db.next_id + 1; bots = bot ∷ db.bots }

abbrev pub welcome_wallet : (amount id business_id : ℕ) → TokenWallet
welcome_wallet amount id business_id = record (new_wallet id business_id) {
  balance = pos amount;
  lifetime_recharged = pos amount;
}

abbrev pub welcome_row : (amount : ℕ) → TokenWallet → (bot_id : ℕ) → EtgTransaction
welcome_row amount wallet bot_id = record {
  wallet_id = wallet.id;
  amount = pos amount;
  balance_before = pos 0;
  balance_after = pos amount;
  transaction_type = "bonus";
  description = "New user welcome bonus";
  reference_type = some "onboarding";
  reference_id = some (uuid bot_id);
  admin_id = none;
}

-- Step 7: a business that has no wallet yet gets one, with the bonus in it.
abbrev pub welcome : Settings → (bot_id business_id : ℕ) → Option TokenWallet → World → World
welcome settings bot_id business_id (some wallet) w = w
welcome settings bot_id business_id none w =
    let amount = settings.etg_new_user_bonus in
    let wallet = welcome_wallet amount w.db.next_id business_id in
    record {
      db = record w.db {
        next_id = w.db.next_id + 1;
        wallets = wallet ∷ w.db.wallets;
        transactions = welcome_row amount wallet bot_id ∷ w.db.transactions;
      };
      redis = record w.redis { balances = delete business_id w.redis.balances };
    }

-- Step 8: the referral of the owner. The message to the owner is left out.
abbrev pub owner_telegram_id : ℕ → World → Option ℕ
owner_telegram_id owner_id w = elim (find_first (is_user owner_id) w.db.users) [
  | none ↦ none
  | some user ↦ user.telegram_id
]

unfoldable pub greet : Characters → Settings → (business_id owner_id : ℕ) → World → World
unfolding redeem
greet chars settings business_id owner_id w =
    (redeem chars settings business_id (owner_telegram_id owner_id w) w).1

-- The configuration of the business's brain, which the first bot brings with defaults, and the bot's
-- names and encrypted token are left out.
unfoldable pub onboard_bot :
    Telegram → Characters → Settings → (token : String) → (business_id owner_id : ℕ) → Action Bot
unfolding greet
onboard_bot telegram chars settings token business_id owner_id = do
  let token_hash = telegram.hash_bot_token token
  raise_if (not (telegram.knows token)) Error.bot_token_invalid
  taken ← gets (λ w. is_some (find_first (has_hash token_hash) w.db.bots))
  raise_if taken Error.bot_token_already_registered
  owned ← gets (λ w. belongs_to owner_id business_id w.db)
  raise_if (not owned) (Error.not_found "Business")
  bot ← gets (λ w. new_bot telegram w.db.next_id business_id token_hash)
  modify_db (add_bot bot)
  raise_if (not (telegram.takes_webhook token)) Error.telegram_api_error
  (λ w. (ok tt, welcome settings bot.id business_id (find_wallet business_id w.db) w))
  (λ w. (ok tt, greet chars settings business_id owner_id w))
  pure bot
