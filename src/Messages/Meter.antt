-- ===== src/Messages/Meter.antt =====
-- `_charge_etg` of app/api/webhooks.py: the price of a reply, taken by the billing policy.
use ethiogram.Base.{
  ℕ, ◌+◌, String, not, ◌&&◌, Option, none, some, ◌∷◌, modify_first, nat_eq, if◌then◌else◌,
}
use ethiogram.Base.Int.{ℤ, pos, ◌+ℤ◌, ◌-ℤ◌, max_zero}
use ethiogram.Models.{
  World, Db, Business, Conversation, TokenWallet, EtgTransaction, UsageEvent, uuid,
}
use ethiogram.Metering.{owns_wallet, find_wallet, cache_balance}
use ethiogram.Messages.Cost.{reply_cost}
use ethiogram.Messages.Policy.{Payer, business_pays, user_pays, payer_text, is_conversation}

-- What the reply used.
pub record Spent : Type 0 where
  pub model_id : String
  pub input_tokens : ℕ
  pub output_tokens : ℕ

-- The conversation's own counters: the free-tier use, and the balance of the customer.
abbrev pub bill_conversation : Payer → ℕ → Business → Conversation → Conversation
bill_conversation payer cost b c = record c {
  monthly_etg_used = if business_pays payer then c.monthly_etg_used + cost else c.monthly_etg_used;
  etg_balance = if user_pays payer then c.etg_balance -ℤ pos b.service_price else c.etg_balance;
}

abbrev pub pay_cost : ℕ → TokenWallet → TokenWallet
pay_cost cost wallet = record wallet {
  balance = max_zero (wallet.balance -ℤ pos cost);
  lifetime_spent = wallet.lifetime_spent +ℤ pos cost;
  current_month_spend = wallet.current_month_spend +ℤ pos cost;
}

abbrev pub earn_markup : ℕ → TokenWallet → TokenWallet
earn_markup markup wallet = record wallet { balance = wallet.balance +ℤ pos markup }

-- A row of the ledger, from a wallet to the wallet behind the write.
abbrev pub ledger_row : String → String → ℕ → ℤ → TokenWallet → TokenWallet → EtgTransaction
ledger_row kind description conversation_id amount before after = record {
  wallet_id = before.id;
  amount = amount;
  balance_before = before.balance;
  balance_after = after.balance;
  transaction_type = kind;
  description = description;
  reference_type = some "conversation";
  reference_id = some (uuid conversation_id);
  admin_id = none;
}

-- A write to the wallet of the business, with its row. The description also names the model.
abbrev pub post : ℕ → String → String → ℕ → ℤ → TokenWallet → (TokenWallet → TokenWallet) → Db → Db
post business_id kind description conversation_id amount wallet f db = record db {
  wallets = modify_first (owns_wallet business_id) f db.wallets;
  transactions =
      ledger_row kind description conversation_id amount wallet (f wallet) ∷ db.transactions;
}

-- `if payer in ("business", "both") and wallet is not None`
abbrev pub post_cost : Payer → ℕ → Business → ℕ → TokenWallet → Db → TokenWallet × Db
post_cost payer cost b conversation_id wallet db =
    if business_pays payer
    then (
      pay_cost cost wallet,
      post b.id "usage" "AI reply" conversation_id (pos 0 -ℤ pos cost) wallet (pay_cost cost) db,
    )
    else (wallet, db)

-- `if wallet is not None and business.business_markup`
abbrev pub post_markup : Payer → Business → ℕ → TokenWallet → Db → TokenWallet × Db
post_markup payer b conversation_id wallet db =
    if user_pays payer && not (nat_eq b.business_markup 0)
    then (
      earn_markup b.business_markup wallet,
      post b.id "markup" "User-paid message markup" conversation_id (pos b.business_markup) wallet
          (earn_markup b.business_markup) db,
    )
    else (wallet, db)

abbrev pub settle_wallet : Payer → ℕ → Business → ℕ → Option TokenWallet → World → World
settle_wallet payer cost b conversation_id none w = w
settle_wallet payer cost b conversation_id (some wallet) w =
    let (paid, db₁) = post_cost payer cost b conversation_id wallet w.db in
    let (earned, db₂) = post_markup payer b conversation_id paid db₁ in
    cache_balance b.id earned.balance (record w { db = db₂ })

abbrev pub reply_event : Payer → ℕ → Business → ℕ → ℕ → Spent → UsageEvent
reply_event payer cost b bot_id conversation_id s = record {
  business_id = b.id;
  bot_id = some bot_id;
  conversation_id = some conversation_id;
  action_type = "ai_reply";
  model_id = some s.model_id;
  model_tier = none;
  input_tokens = s.input_tokens;
  output_tokens = s.output_tokens;
  etg_charged = cost;
  payer = some (payer_text payer);
}

-- What `_charge_etg` does once the cost is known. The conversation is the row of that id: the code holds
-- the object.
abbrev pub bill_reply : Business → ℕ → ℕ → Spent → Payer → ℕ → World → World
bill_reply b conversation_id bot_id s payer cost w =
    settle_wallet payer cost b conversation_id (find_wallet b.id w.db) (record w {
      db = record w.db {
        conversations =
            modify_first (is_conversation conversation_id) (bill_conversation payer cost b)
              w.db.conversations;
        usage_events = reply_event payer cost b bot_id conversation_id s ∷ w.db.usage_events;
      };
    })

unfoldable pub charge_etg : Business → ℕ → ℕ → Spent → Payer → World → ℕ × World
charge_etg b conversation_id bot_id s payer w =
    let (cost, w') = reply_cost s.model_id s.input_tokens s.output_tokens w in
    (cost, bill_reply b conversation_id bot_id s payer cost w')
