-- ===== src/Metering/Crediting.antt =====
-- `credit` and `reactivate_grace_bots` of app/core/metering.py.
use ethiogram.Base.{
  ℕ, ◌+◌, String, Bool, false, Option, none, some, ◌∷◌, modify_first, modify_all, count_if, nat_eq,
  ◌==◌, eq_string, ◌&&◌, ◌||◌, if◌then◌else◌,
}
use ethiogram.Base.Int.{ℤ, pos, ◌+ℤ◌}
use ethiogram.Models.{World, Db, TokenWallet, Reference, EtgTransaction, Bot, is_grace, BotStatus}
use ethiogram.Metering.Balance.{owns_wallet, find_wallet, cache_balance}

-- The arguments of `credit` behind the business.
pub record Credit : Type 0 where
  pub amount : ℤ
  pub description : String
  pub reference_type : String
  pub reference_id : Option Reference
  pub admin_id : Option ℕ

abbrev pub new_wallet : ℕ → ℕ → TokenWallet
new_wallet id business_id = record {
  id = id;
  business_id = business_id;
  balance = pos 0;
  escrow_balance = pos 0;
  lifetime_recharged = pos 0;
  lifetime_spent = pos 0;
  auto_recharge_enabled = false;
  auto_recharge_threshold = pos 500;
  auto_recharge_amount = pos 5000;
  auto_recharge_provider = none;
  current_month_spend = pos 0;
}

-- `if wallet is None: wallet = TokenWallet(...); db.add(wallet); await db.flush()`
abbrev pub ensure_wallet : ℕ → Option TokenWallet → Db → TokenWallet × Db
ensure_wallet business_id (some wallet) db = (wallet, db)
ensure_wallet business_id none db =
    let wallet = new_wallet db.next_id business_id in
    (wallet, record db { next_id = db.next_id + 1; wallets = wallet ∷ db.wallets })

abbrev counts_as_recharge : String → Bool
counts_as_recharge t = t == "recharge" || t == "bonus" || t == "admin_grant"

abbrev pub deposit : Credit → TokenWallet → TokenWallet
deposit c wallet = record wallet {
  balance = wallet.balance +ℤ c.amount;
  lifetime_recharged =
      if counts_as_recharge c.reference_type
      then wallet.lifetime_recharged +ℤ c.amount
      else wallet.lifetime_recharged;
}

abbrev credit_transaction : Credit → TokenWallet → EtgTransaction
credit_transaction c wallet = record {
  wallet_id = wallet.id;
  amount = c.amount;
  balance_before = wallet.balance;
  balance_after = wallet.balance +ℤ c.amount;
  transaction_type = c.reference_type;
  description = c.description;
  reference_type = some c.reference_type;
  reference_id = c.reference_id;
  admin_id = c.admin_id;
}

unfoldable pub credit : ℕ → Credit → World → ℤ × World
credit business_id c w =
    let (wallet, db) = ensure_wallet business_id (find_wallet business_id w.db) w.db in
    let balance = wallet.balance +ℤ c.amount in
    (
      balance,
      cache_balance business_id balance (record w {
        db = record db {
          wallets = modify_first (owns_wallet business_id) (deposit c) db.wallets;
          transactions = credit_transaction c wallet ∷ db.transactions;
        };
      }),
    )

abbrev pub in_grace : ℕ → Bot → Bool
in_grace business_id bot = nat_eq bot.business_id business_id && is_grace bot.status

abbrev pub reactivate : Bot → Bot
reactivate bot = record bot { status = BotStatus.active; grace_period_started_at = none }

unfoldable pub reactivate_grace_bots : ℕ → Db → ℕ × Db
reactivate_grace_bots business_id db = (
  count_if (in_grace business_id) db.bots,
  record db { bots = modify_all (in_grace business_id) reactivate db.bots },
)
