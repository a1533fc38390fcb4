-- ===== src/Metering/Totals.antt =====
-- The balance of a business in the database, before and after `credit` of app/core/metering.py.
use ethiogram.Base.{
  ℕ, ◌≡◌, refl, ◌∙◌, ap, none, some, inl, inr, ◌≢◌, lookup, Option-cases, eq_nat, nat_eq, false,
  arith,
}
use ethiogram.Base.Int.{ℤ, ◌+ℤ◌}
use ethiogram.Models.{World, Db}
use ethiogram.Metering.{
  find_wallet, db_balance, balance_of, get_balance, Credit, credit, deposit, ensure_wallet,
}
use ethiogram.Metering.Cache.{find_wallet-modify_self, find_wallet-ensure, find_wallet-modify_ne}

ensured-balance :
    (b : ℕ) (db : Db) → (ensure_wallet b (find_wallet b db) db).0.balance ≡ db_balance b db
ensured-balance b db = elim (Option-cases (find_wallet b db)) [
  | inl missing ↦ rw (missing, ensure_wallet) refl
  | inr (t, found) ↦ rw (found, ensure_wallet) refl
]

pub db_balance-credit :
    (b : ℕ) (c : Credit) (w : World)
    → db_balance b (credit b c w).1.db ≡ db_balance b w.db +ℤ c.amount
unfolding credit
db_balance-credit b c w =
    let (t, db) = ensure_wallet b (find_wallet b w.db) w.db in
    let found : find_wallet b db ≡ some t = (find_wallet-ensure b w.db).0 in
    ap balance_of (find_wallet-modify_self (deposit c) (λ t. refl) b db {t = t} found)
    ∙ ap (λ (v : ℤ). v +ℤ c.amount) (ensured-balance b w.db)

-- `credit` returns the balance that it leaves.
pub credit-returns :
    (b : ℕ) (c : Credit) (w : World) → (credit b c w).0 ≡ db_balance b w.db +ℤ c.amount
unfolding credit
credit-returns b c w = ap (λ (v : ℤ). v +ℤ c.amount) (ensured-balance b w.db)

pub credit-bots : (b : ℕ) (c : Credit) (w : World) → (credit b c w).1.db.bots ≡ w.db.bots
unfolding credit
credit-bots b c w = elim (Option-cases (find_wallet b w.db)) [
  | inl missing ↦ rw (missing, ensure_wallet) refl
  | inr (t, found) ↦ rw (found, ensure_wallet) refl
]

pub get_balance-missed :
    (b : ℕ) (w : World) → lookup b w.redis.balances ≡ none → (get_balance b w).0 ≡ db_balance b w.db
unfolding get_balance
get_balance-missed b w miss = rw (miss, get_balance) refl

-- Two numbers that differ.
pub nat_eq_ne : (m n : ℕ) → m ≢ n → nat_eq m n ≡ false
nat_eq_ne m n ne = ground (arith, ne)

pub db_balance-credit_ne :
    (b j : ℕ) (c : Credit) (w : World)
    → b ≢ j
    → db_balance j (credit b c w).1.db ≡ db_balance j w.db
unfolding credit
db_balance-credit_ne b j c w ne =
    let (t, db) = ensure_wallet b (find_wallet b w.db) w.db in
    let differs = nat_eq_ne b j ne in
    ap balance_of (find_wallet-modify_ne (deposit c) (λ t. refl) b j db differs)
    ∙ ap balance_of ((find_wallet-ensure b w.db).1 j differs)

-- A credit leaves all else of the database but the ledger alone.
pub credit-rows :
    (b : ℕ) (c : Credit) (w : World)
    → ((credit b c w).1.db.users ≡ w.db.users) × ((credit b c w).1.db.businesses ≡ w.db.businesses)
unfolding credit
credit-rows b c w = elim (Option-cases (find_wallet b w.db)) [
  | inl missing ↦ rw (missing, ensure_wallet) (refl, refl)
  | inr (t, found) ↦ rw (found, ensure_wallet) (refl, refl)
]
