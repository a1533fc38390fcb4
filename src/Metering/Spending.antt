-- ===== src/Metering/Spending.antt =====
-- What a charge of app/core/metering.py takes from the wallet, against the cost that it names.
use ethiogram.Base.{
  ℕ, ◌+◌, ◌<◌, ◌≡◌, ◌↔◌, ◌∙◌, ap, refl, some, inl, inr, arith, Option-cases, All, Dict, lookup,
  insert, lookup-insert_self, eq_string, All-modify_first, String, if◌then◌else◌,
}
use ethiogram.Base.Int.{ℤ, pos, ◌+ℤ◌, ◌-ℤ◌, ◌≤ℤ◌, ltb_ℤ, max_zero}
use ethiogram.Models.{World, Db, TokenWallet, Error}
use ethiogram.Request.{ok, err}
use ethiogram.Metering.{
  owns_wallet, find_wallet, db_cost, balance_of, get_balance, get_action_cost, pre_flight_check,
  Usage, token_surcharge, debit, charge, charge_wallet,
}
use ethiogram.Metering.Cache.{
  IsCoherent, here, get_balance-eq-db_balance, get_action_cost-keeps, find_wallet-modify_self,
}

-- No wallet is overdrawn.
abbrev pub IsFunded : Db → Type 0
IsFunded db = All (λ (t : TokenWallet). pos 0 ≤ℤ t.balance) db.wallets

max_zero_nonneg : (a : ℤ) → pos 0 ≤ℤ max_zero a
max_zero_nonneg (pos n) = omega arith
max_zero_nonneg (ℤ.negsuc n) = omega arith

-- A charge leaves no wallet below zero, whatever the cost and the tokens, if none was below zero
-- before.
pub charge-IsFunded : (b : ℕ) (u : Usage) (w : World) → IsFunded w.db → IsFunded (charge b u w).1.db
unfolding charge
charge-IsFunded b u w h =
    let (base_cost, w') = get_action_cost u.action_type w in
    let etg : ℕ = base_cost + token_surcharge u in
    let same = (get_action_cost-keeps u.action_type w).0 in
    elim (Option-cases (find_wallet b w'.db)) [
      | inl missing ↦ rw missing (rw same h)
      | inr (t, found) ↦
          rw (found, charge_wallet)
            (All-modify_first (owns_wallet b) (debit etg) w'.db.wallets
              (λ t mine old. max_zero_nonneg (t.balance -ℤ pos etg)) (rw same h))
    ]

lookup_price_self : (a : String) (c : ℕ) (d : Dict String ℕ) → lookup a (insert a c d) ≡ some c
lookup_price_self a c d = lookup-insert_self a c d

-- The cost of an action is the same when it is asked for again: the first call has cached it.
get_action_cost_again :
    (a : String) (w : World)
    → (get_action_cost a (get_action_cost a w).1).0 ≡ (get_action_cost a w).0
unfolding get_action_cost
get_action_cost_again a w = elim (Option-cases (lookup a w.redis.prices)) [
  | inl miss ↦
      rw (miss, get_action_cost)
        (rw (lookup_price_self a (db_cost a w.db) w.redis.prices, get_action_cost))
  | inr (c, hit) ↦ rw (hit, get_action_cost) (rw (hit, get_action_cost))
]

max_zero_exact_iff : (a : ℤ) (n : ℕ) → (max_zero (a -ℤ pos n) +ℤ pos n ≡ a) ↔ (pos n ≤ℤ a)
unfolding ◌+ℤ◌ ◌-ℤ◌
max_zero_exact_iff a n = ground arith

module _ (b : ℕ) (u : Usage) (w : World) {t : TokenWallet}
    (found : find_wallet b w.db ≡ some t) where
  charge_wallet_found :
      let etg = (get_action_cost u.action_type w).0 + token_surcharge u in
      ((charge b u w).0 ≡ etg) × (find_wallet b (charge b u w).1.db ≡ some (debit etg t))
  unfolding charge
  charge_wallet_found =
      let (base_cost, w') = get_action_cost u.action_type w in
      let etg : ℕ = base_cost + token_surcharge u in
      let found' : find_wallet b w'.db ≡ some t =
        rw (get_action_cost-keeps u.action_type w).0 found in
      rw (found', charge_wallet)
        (refl, find_wallet-modify_self (debit etg) (λ t. refl) b w'.db found')

  -- A charge on an existing wallet returns the cost of the action plus the token surcharge, and the
  -- wallet loses exactly what is returned if and only if its balance covers it.
  pub charge_exact_iff :
      (t' : TokenWallet) × (find_wallet b (charge b u w).1.db ≡ some t')
      × ((charge b u w).0 ≡ (get_action_cost u.action_type w).0 + token_surcharge u)
      × ((t'.balance +ℤ pos (charge b u w).0 ≡ t.balance) ↔ (pos (charge b u w).0 ≤ℤ t.balance))
  charge_exact_iff =
      let etg : ℕ = (get_action_cost u.action_type w).0 + token_surcharge u in
      let (returned, written) = charge_wallet_found in
      (debit etg t, written, returned, rw returned (max_zero_exact_iff t.balance etg))

get_balance-keeps :
    (b : ℕ) (w : World)
    → ((get_balance b w).1.db ≡ w.db) × ((get_balance b w).1.redis.prices ≡ w.redis.prices)
unfolding get_balance
get_balance-keeps b w = ground arith

get_action_cost-same :
    (a : String) (w w' : World)
    → w'.db ≡ w.db
    → w'.redis.prices ≡ w.redis.prices
    → (get_action_cost a w').0 ≡ (get_action_cost a w).0
unfolding get_action_cost
get_action_cost-same a w w' db prices = elim (Option-cases (lookup a w.redis.prices)) [
  | inl miss ↦ rw (prices, miss, db, get_action_cost)
  | inr (c, hit) ↦ rw (prices, hit, get_action_cost)
]

token_surcharge_few :
    (u : Usage) → u.input_tokens < 1000 → u.output_tokens < 1000 → token_surcharge u ≡ 0
token_surcharge_few u i o = ground arith

covers :
    (balance : ℤ) (cost : ℕ) {v : ℤ}
    → (if ltb_ℤ balance (pos cost)
        then err (Error.insufficient_balance cost balance)
        else ok balance)
      ≡ ok v
    → pos cost ≤ℤ balance
covers balance cost passed = ground arith

-- Where the cache agrees with the wallets, the business has a wallet and an action passes the
-- pre-flight check, and the call then uses fewer than 1000 input and fewer than 1000 output tokens,
-- the charge that follows takes exactly the cost of the action from the wallet.
pub charge-pre_flight_check :
    (b : ℕ) (u : Usage) (w : World) {t : TokenWallet} {v : ℤ}
    → IsCoherent w
    → find_wallet b w.db ≡ some t
    → (pre_flight_check b u.action_type w).0 ≡ ok v
    → u.input_tokens < 1000
    → u.output_tokens < 1000
    → (t' : TokenWallet) × (find_wallet b (charge b u (pre_flight_check b u.action_type w).1).1.db
        ≡ some t')
      × (t'.balance +ℤ pos (get_action_cost u.action_type w).0 ≡ t.balance)
unfolding pre_flight_check
charge-pre_flight_check b u w {t} h found passed few_in few_out =
    let a = u.action_type in
    let w₁ = (get_balance b w).1 in
    let w₂ = (get_action_cost a w₁).1 in
    let (same_db, same_prices) = get_balance-keeps b w in
    let found₂ : find_wallet b w₂.db ≡ some t =
      rw ((get_action_cost-keeps a w₁).0, same_db) found in
    let again : (get_action_cost a w₂).0 ≡ (get_action_cost a w).0 =
      get_action_cost_again a w₁ ∙ get_action_cost-same a w w₁ same_db same_prices in
    let exact : (get_balance b w).0 ≡ t.balance =
      get_balance-eq-db_balance w w b h here ∙ ap balance_of found in
    let enough : pos (get_action_cost a w₁).0 ≤ℤ t.balance = rw (← exact) (covers _ _ passed) in
    let (t', written, returned, covered) = charge_exact_iff b u w₂ found₂ in
    let price : (charge b u w₂).0 ≡ (get_action_cost a w).0 =
      omega (arith, returned, again, token_surcharge_few u few_in few_out) in
    let same_cost : (get_action_cost a w₁).0 ≡ (get_action_cost a w).0 =
      get_action_cost-same a w w₁ same_db same_prices in
    (t', written, rw (← price) (covered.1 (rw (price, ← same_cost) enough)))
