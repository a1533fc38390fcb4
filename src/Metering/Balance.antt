-- ===== src/Metering/Balance.antt =====
-- `get_balance` of app/core/metering.py, and the wallet of a business.
use ethiogram.Base.{ℕ, Bool, Option, none, some, lookup, insert, delete, find_first, nat_eq, eq_nat}
use ethiogram.Base.Int.{ℤ, pos}
use ethiogram.Models.{World, Db, TokenWallet}

abbrev pub owns_wallet : ℕ → TokenWallet → Bool
owns_wallet business_id wallet = nat_eq wallet.business_id business_id

-- `select(TokenWallet).where(TokenWallet.business_id == business_id)`; the column is unique.
abbrev pub find_wallet : ℕ → Db → Option TokenWallet
find_wallet business_id db = find_first (owns_wallet business_id) db.wallets

abbrev pub balance_of : Option TokenWallet → ℤ
balance_of none = pos 0
balance_of (some wallet) = wallet.balance

-- The balance that the database holds, and 0 where there is no wallet.
abbrev pub db_balance : ℕ → Db → ℤ
db_balance business_id db = balance_of (find_wallet business_id db)

abbrev pub cache_balance : ℕ → ℤ → World → World
cache_balance business_id balance w = record w {
  redis = record w.redis { balances = insert business_id balance w.redis.balances };
}

unfoldable pub get_balance : ℕ → World → ℤ × World
get_balance business_id w = elim (lookup business_id w.redis.balances) [
  | some cached ↦ (cached, w)
  | none ↦
      (let balance = db_balance business_id w.db in (balance, cache_balance business_id balance w))
]

unfoldable pub bust_balance_cache : ℕ → World → World
bust_balance_cache business_id w = record w {
  redis = record w.redis { balances = delete business_id w.redis.balances };
}
