-- ===== src/Tests/Messaging.antt =====
-- A customer of the sample market's shop, who pays for the answers of its bot: app/api/webhooks.py.
use ethiogram.Base.{
  ℕ, ◌+◌, ◌*◌, ◌≤◌, ◌<◌, ◌≡◌, ◌⊎◌, refl, true, false, none, some, [], ◌∷◌, arith, find_first,
  lookup, eq_nat,
}
use ethiogram.Base.Int.{pos, ◌+ℤ◌}
use ethiogram.Models.{
  World, Db, TokenWallet, AiModel, Bot, BotStatus, Business, Conversation, empty_redis,
}
use ethiogram.Request.{ok, pure, transaction}
use ethiogram.Metering.{Credit, credit, get_balance}
use ethiogram.Metering.Ledger.{IsAudited}
use ethiogram.Transfers.{Characters}
use ethiogram.Messages.{
  model_price, db_price, reply_cost, is_free, Spent, Payer, Block, charge_etg, is_conversation,
  is_bot, bot_should_block, decide_payer, user_pays, credit_customer, Update, Envelope,
  apply_monthly_reset, gate, unless, answer, Services, telegram_webhook,
}
use ethiogram.Messages.Prices.{
  PriceOp, run_prices, IsPriced, model_price-eq_db_price, reply_cost_bounds,
}
use ethiogram.Messages.Bills.{left_of, counted, price_for, charge_etg_lem}
use ethiogram.Messages.Solvency.{IsSolvent}
use ethiogram.Messages.Answers.{LeavesAccounts}
use ethiogram.Messages.Accounts.{telegram_webhook-IsSolvent}
use ethiogram.Messages.Once.{KeepsMarks, telegram_webhook_once}
use ethiogram.Messages.Recovery.{bot_should_block-credit}
use ethiogram.Messages.Recharged.{noted, gate-credit_customer}
use ethiogram.Tests.Samples.{market_db, shop, shop_bot, shop_wallet}

abbrev pub ascii : Characters
ascii = record {
  is_space = λ c. false;
  is_digit = λ c. true;
  decimal = λ c. none;
  lower = λ s. s;
  sql_lower = λ s. s;
}

abbrev kiosk : Business
kiosk = record shop { billing_policy = "user_pays"; service_price = 5; business_markup = 2 }

abbrev chat : Conversation
chat = record {
  id = 80;
  business_id = 10;
  bot_id = 6;
  customer_platform_id = 53 ∷ [];
  detected_language = "en";
  last_message_at = none;
  total_messages = 0;
  total_etg_spent = 0;
  etg_balance = pos 8;
  monthly_etg_used = 0;
  monthly_reset_at = none;
}

abbrev mini : AiModel
mini = record {
  model_id = "mini";
  etg_cost_per_1k_input = 3;
  etg_cost_per_1k_output = 7;
  is_enabled = true;
}

abbrev kiosk_db : Db
kiosk_db = record market_db {
  businesses = kiosk ∷ [];
  conversations = chat ∷ [];
  ai_models = mini ∷ [];
}

abbrev kiosk_world : World
kiosk_world = record { db = kiosk_db; redis = empty_redis }

abbrev spent : Spent
spent = record { model_id = "mini"; input_tokens = 100; output_tokens = 50 }

kiosk-IsPriced : IsPriced kiosk_world
kiosk-IsPriced m t hit = cc

abbrev repriced : World
repriced =
    run_prices
      (PriceOp.read "mini"
        ∷ PriceOp.set_price 2 (record {
          model_id = "mini";
          etg_cost_per_1k_input = some 9;
          etg_cost_per_1k_output = none;
          is_enabled = none;
        })
        ∷ PriceOp.read "mini"
        ∷ [])
      kiosk_world

model_price-eq_db_price_example : (model_price "mini" repriced).0 ≡ db_price "mini" repriced.db
model_price-eq_db_price_example =
    model_price-eq_db_price
      (PriceOp.read "mini"
        ∷ PriceOp.set_price 2 (record {
          model_id = "mini";
          etg_cost_per_1k_input = some 9;
          etg_cost_per_1k_output = none;
          is_enabled = none;
        })
        ∷ PriceOp.read "mini"
        ∷ [])
      "mini" kiosk_world kiosk-IsPriced refl

reply_cost_bounds_example :
    let cost = (reply_cost "mini" 100 50 kiosk_world).0 in
    (is_free "mini" ≡ true → cost ≡ 0)
    × (is_free "mini" ≡ false
        → (1 ≤ cost) × (100 * 3 + 50 * 7 ≤ 1000 * cost) × (1000 * cost < 100 * 3 + 50 * 7 + 2000))
reply_cost_bounds_example = reply_cost_bounds "mini" 100 50 kiosk_world kiosk-IsPriced refl

kiosk-IsAudited : IsAudited (pos 1000) 10 kiosk_db shop_wallet
unfolding ◌+ℤ◌
kiosk-IsAudited = record { found = refl; chain = tt; latest = refl; amounts = omega arith }

charge_etg_lem_example :
    let (cost, w') = charge_etg kiosk 80 6 spent Payer.user kiosk_world in
    ((t' : TokenWallet) × IsAudited (pos 1000) 10 w'.db t'
      × (t'.balance ≡ left_of Payer.user cost kiosk (pos 1000))
      × (lookup 10 w'.redis.balances ≡ some t'.balance))
    × ((c' : Conversation) × (find_first (is_conversation 80) w'.db.conversations ≡ some c')
        × (c'.monthly_etg_used ≡ 0 + counted Payer.user cost)
        × (c'.etg_balance +ℤ pos (price_for Payer.user kiosk) ≡ pos 8))
charge_etg_lem_example =
    charge_etg_lem (pos 1000) kiosk 80 6 spent Payer.user kiosk_world {t = shop_wallet} {c = chat}
      kiosk-IsAudited refl

-- Every flow passes the message on, and the model answers with one letter.
abbrev pub quiet : Services
quiet = record {
  chars = ascii;
  month = λ now. 0;
  is_master = λ h. false;
  platform_menu = λ e w. w;
  decrypts = λ b. true;
  ignores_group = λ e b w. false;
  add_product = λ e b. pure false;
  owner_menu = λ e b. pure false;
  transcribe = λ e. none;
  booking = λ e b c. pure false;
  process_message = λ e c. pure (record { text = 97 ∷ []; spent = spent });
  sends = λ e t. true;
}

quiet-LeavesAccounts : LeavesAccounts quiet
quiet-LeavesAccounts = record {
  platform = λ e w. refl;
  add_product = λ e b w. refl;
  owner_menu = λ e b w. refl;
  booking = λ e b c w. refl;
  process_message = λ e c w. refl;
}

quiet-KeepsMarks : (b k : ℕ) → KeepsMarks quiet b k
quiet-KeepsMarks b k = record {
  platform = λ e w h. h;
  add_product = λ e bot w h. h;
  owner_menu = λ e bot w h. h;
  booking = λ e bot c w h. h;
  process_message = λ e c w h. h;
}

abbrev request : Envelope
request = record { chat_type = "private"; customer_id = 53 ∷ []; text = 104 ∷ []; is_voice = false }

abbrev pub question : Update
question = record {
  token_hash = "hash";
  secret_header = "";
  envelope = some request;
  update_id = some 900;
}

kiosk-IsSolvent : IsSolvent kiosk_db
kiosk-IsSolvent = (omega arith, tt)

telegram_webhook-IsSolvent_example :
    IsSolvent (transaction (telegram_webhook quiet question 60) kiosk_world).1.db
telegram_webhook-IsSolvent_example =
    telegram_webhook-IsSolvent quiet question 60 kiosk_world quiet-LeavesAccounts kiosk-IsSolvent

-- The same update once more, a minute later, where the first one has left its mark.
abbrev marked_world : World
marked_world = record { db = kiosk_db; redis = record empty_redis { updates = (6, 900) ∷ [] } }

telegram_webhook_once_example :
    (telegram_webhook quiet question 60 kiosk_world ≡ (ok tt, kiosk_world))
    ⊎ (telegram_webhook quiet question 120 marked_world ≡ (ok tt, marked_world))
telegram_webhook_once_example =
    telegram_webhook_once quiet question question 60 120 900 kiosk_world marked_world
      {bot = shop_bot} {bot' = shop_bot} (quiet-KeepsMarks 6 900) refl refl refl refl refl refl refl
      (λ h. refl)

abbrev dry_bot : Bot
dry_bot = record shop_bot { status = BotStatus.grace; grace_period_started_at = some 5 }

abbrev dry : World
dry = record {
  db = record market_db {
    bots = dry_bot ∷ [];
    wallets = record shop_wallet { balance = pos 0 } ∷ [];
  };
  redis = empty_redis;
}

abbrev top_up : Credit
top_up = record {
  amount = pos 40;
  description = "Chapa recharge";
  reference_type = "recharge";
  reference_id = none;
  admin_id = none;
}

bot_should_block-credit_example :
    let (blocked, w') = bot_should_block dry_bot (credit 10 top_up dry).1 in
    (blocked ≡ false)
    × (find_first (is_bot 6) w'.db.bots
        ≡ some (record dry_bot { status = BotStatus.active; grace_period_started_at = none }))
    × (lookup 10 w'.redis.alert_sent ≡ none)
    × ((get_balance 10 w').0 ≡ pos 0 +ℤ pos 40)
unfolding ◌+ℤ◌
bot_should_block-credit_example = bot_should_block-credit dry_bot top_up dry refl refl (omega arith)

abbrev poor_chat : Conversation
poor_chat = record chat { etg_balance = pos 1 }

abbrev poor : World
poor = record { db = record kiosk_db { conversations = poor_chat ∷ [] }; redis = empty_redis }

poor_waits :
    decide_payer kiosk (noted quiet.month request 60 poor_chat) ≡ (Payer.user, some Block.recharge)
unfolding decide_payer apply_monthly_reset
poor_waits = refl

gate-credit_customer_example :
    let (result, w') = credit_customer 10 80 1 4 poor in
    (user_pays Payer.user ≡ true)
    × ((gate quiet request shop_bot kiosk 60 poor).1.db.messages ≡ kiosk_db.messages)
    × (result ≡ ok (pos 1 +ℤ pos 4))
    × ((c' : Conversation) × (w'' : World) × (c'.etg_balance ≡ pos 1 +ℤ pos 4)
        × (find_first (is_conversation 80) w''.db.conversations ≡ some c')
        × (gate quiet request shop_bot kiosk 60 w'
            ≡ unless (pure false) (answer quiet request shop_bot kiosk c' Payer.user 60) w''))
unfolding ◌+ℤ◌
gate-credit_customer_example =
    gate-credit_customer quiet request shop_bot kiosk 60 1 4 Payer.user poor {c = poor_chat} refl
      refl refl refl (omega arith) (omega arith) refl refl refl poor_waits (omega arith)
