-- ===== src/Metering/Cache.antt =====
-- The balance cache of app/core/metering.py against the wallets in the database, over any sequence of
-- calls of the service and of expiries of keys.
use ethiogram.Base.{
  ℕ, ◌+◌, String, ◌≡◌, refl, ap, false, Option, none, some, inl, inr, arith, lookup, insert,
  lookup-delete_self, lookup-delete_ne, find_first, modify_first, find_first-holds,
  find_first-modify_first, find_first-modify_ne, nat_eq, nat_eq_iff, eq_nat, eq_string, Bool-cases,
  Option-cases,
}
use ethiogram.Base.Int.{ℤ, ◌+ℤ◌}
use ethiogram.Models.{World, Db, TokenWallet, Bot, AlertType}
use ethiogram.Metering.{
  owns_wallet, find_wallet, db_balance, get_balance, get_action_cost, invalidate_pricing_cache,
  pre_flight_check, Usage, token_surcharge, debit, charge_wallet, charge, Credit, deposit,
  ensure_wallet, credit, reactivate_grace_bots, trigger_alerts_if_needed, due_alert, log_alert,
  send_alert, bust_balance_cache,
}

-- Whatever the cache holds is the balance of the wallet.
abbrev pub IsCoherent : World → Type 0
IsCoherent w = (b : ℕ) (v : ℤ) → lookup b w.redis.balances ≡ some v → v ≡ db_balance b w.db

pub IsCoherent-cache :
    (b : ℕ) (v : ℤ) (w w' : World)
    → IsCoherent w
    → w'.redis.balances ≡ insert b v w.redis.balances
    → db_balance b w'.db ≡ v
    → ((j : ℕ) → nat_eq b j ≡ false → db_balance j w'.db ≡ db_balance j w.db)
    → IsCoherent w'
IsCoherent-cache b v w w' h cache self others j x e = elim (Bool-cases (nat_eq b j)) [
  | inl same ↦ ground (arith, nat_eq_iff b j)
  | inr other ↦ ground (arith, h j x, others j other)
]

-- A write to the wallet of `b` leaves the wallets of others alone.
pub find_wallet-modify_ne :
    (f : TokenWallet → TokenWallet)
    → ((t : TokenWallet) → (f t).business_id ≡ t.business_id)
    → (b j : ℕ) (db : Db) → nat_eq b j ≡ false
    → find_first (owns_wallet j) (modify_first (owns_wallet b) f db.wallets)
      ≡ find_first (owns_wallet j) db.wallets
find_wallet-modify_ne f same b j db ne =
    find_first-modify_ne (owns_wallet b) (owns_wallet j) f db.wallets
      λ t h. (ground arith, ground (arith, same t))

pub find_wallet-modify_self :
    (f : TokenWallet → TokenWallet)
    → ((t : TokenWallet) → (f t).business_id ≡ t.business_id)
    → (b : ℕ) (db : Db) {t : TokenWallet} → find_wallet b db ≡ some t
    → find_first (owns_wallet b) (modify_first (owns_wallet b) f db.wallets) ≡ some (f t)
find_wallet-modify_self f same b db {t} e =
    find_first-modify_first (owns_wallet b) f db.wallets e
      (ground (arith, same t, find_first-holds (owns_wallet b) db.wallets e))

get_balance-IsCoherent : (b : ℕ) (w : World) → IsCoherent w → IsCoherent (get_balance b w).1
unfolding get_balance
get_balance-IsCoherent b w h = elim (Option-cases (lookup b w.redis.balances)) [
  | inl miss ↦
      IsCoherent-cache b (db_balance b w.db) w (get_balance b w).1 h (rw (miss, get_balance))
        (rw (miss, get_balance)) (λ j ne. rw (miss, get_balance))
  | inr (v, hit) ↦ rw (hit, get_balance) h
]

-- A reading of the cost touches neither the balances nor the database.
pub get_action_cost-keeps :
    (a : String) (w : World)
    → ((get_action_cost a w).1.db ≡ w.db)
      × ((get_action_cost a w).1.redis.balances ≡ w.redis.balances)
unfolding get_action_cost
get_action_cost-keeps a w = ground arith

-- Coherence looks only at the cached balances and at the wallets.
pub IsCoherent-same :
    (w w' : World)
    → w'.redis.balances ≡ w.redis.balances
    → w'.db.wallets ≡ w.db.wallets
    → IsCoherent w
    → IsCoherent w'
IsCoherent-same w w' cache wallets h b v e = rw wallets (h b v (rw cache at e))

pre_flight_check-IsCoherent :
    (b : ℕ) (a : String) (w : World) → IsCoherent w → IsCoherent (pre_flight_check b a w).1
unfolding pre_flight_check
pre_flight_check-IsCoherent b a w h =
    let w₁ = (get_balance b w).1 in
    IsCoherent-same w₁ (get_action_cost a w₁).1 (get_action_cost-keeps a w₁).1
      (ap (λ (d : Db). d.wallets) (get_action_cost-keeps a w₁).0) (get_balance-IsCoherent b w h)

charge-IsCoherent : (b : ℕ) (u : Usage) (w : World) → IsCoherent w → IsCoherent (charge b u w).1
unfolding charge
charge-IsCoherent b u w h =
    let (base_cost, w') = get_action_cost u.action_type w in
    let etg : ℕ = base_cost + token_surcharge u in
    let h' : IsCoherent w' =
      IsCoherent-same w w' (get_action_cost-keeps u.action_type w).1
        (ap (λ (d : Db). d.wallets) (get_action_cost-keeps u.action_type w).0) h in
    elim (Option-cases (find_wallet b w'.db)) [
      | inl missing ↦ rw missing h'
      | inr (t, found) ↦
          IsCoherent-cache b (debit etg t).balance w' (charge b u w).1 h'
            (rw (found, charge_wallet))
            (rw (found, charge_wallet)
              (rw (find_wallet-modify_self (debit etg) (λ t. refl) b w'.db found)))
            (λ j ne.
              rw (found, charge_wallet)
                (rw (find_wallet-modify_ne (debit etg) (λ t. refl) b j w'.db ne)))
    ]

pub find_wallet-ensure :
    (b : ℕ) (db : Db)
    → let (t, db') = ensure_wallet b (find_wallet b db) db in
      (find_wallet b db' ≡ some t)
      × ((j : ℕ) → nat_eq b j ≡ false → find_wallet j db' ≡ find_wallet j db)
find_wallet-ensure b db = elim (Option-cases (find_wallet b db)) [
  | inl missing ↦ rw (missing, ensure_wallet) (rw ((nat_eq_iff b b).1 refl), λ j ne. rw ne)
  | inr (t, found) ↦ rw (found, ensure_wallet) (found, λ j ne. refl)
]

credit-IsCoherent : (b : ℕ) (c : Credit) (w : World) → IsCoherent w → IsCoherent (credit b c w).1
unfolding credit
credit-IsCoherent b c w h =
    let (t, db) = ensure_wallet b (find_wallet b w.db) w.db in
    let (found, others) = find_wallet-ensure b w.db in
    IsCoherent-cache b (t.balance +ℤ c.amount) w (credit b c w).1 h refl
      (rw (find_wallet-modify_self (deposit c) (λ t. refl) b db found))
      (λ j ne. rw (find_wallet-modify_ne (deposit c) (λ t. refl) b j db ne) (rw (others j ne)))

log_alert-wallets :
    (b : ℕ) (level : AlertType) (v : ℤ) (db : Db) → (log_alert b level v db).wallets ≡ db.wallets
unfolding log_alert
log_alert-wallets b level v db = refl

send_alert-keeps :
    (b : ℕ) (level : Option AlertType) (v : ℤ) (bot : Option Bot) (now : ℕ) (w : World)
    → ((send_alert b level v bot now w).redis.balances ≡ w.redis.balances)
      × ((send_alert b level v bot now w).db.wallets ≡ w.db.wallets)
send_alert-keeps b none v bot now w = (refl, refl)
send_alert-keeps b (some AlertType.zero) v none now w =
    (refl, log_alert-wallets b AlertType.zero v w.db)
send_alert-keeps b (some AlertType.zero) v (some bot) now w =
    ground (arith, log_alert-wallets b AlertType.zero v w.db)
send_alert-keeps b (some level) v bot now w = (refl, log_alert-wallets b level v w.db)

-- The calls of the service, and what Redis does by itself: a key expires.
pub data Step (w : World) : World → Type 0 where
  get_balance_step : (b : ℕ) → Step w (get_balance b w).1
  get_action_cost_step : (a : String) → Step w (get_action_cost a w).1
  pre_flight_step : (b : ℕ) (a : String) → Step w (pre_flight_check b a w).1
  charge_step : (b : ℕ) (u : Usage) → Step w (charge b u w).1
  credit_step : (b : ℕ) (c : Credit) → Step w (credit b c w).1
  alerts_step :
      (b : ℕ) (v : ℤ) (bot : Option Bot) (now : ℕ) → Step w (trigger_alerts_if_needed b v bot now w)
  reactivate_step : (b : ℕ) → Step w (record w { db = (reactivate_grace_bots b w.db).1 })
  bust_step : (b : ℕ) → Step w (bust_balance_cache b w)
  invalidate_step : Step w (invalidate_pricing_cache w)

pub data Reach (w : World) : World → Type 0 where
  here : Reach w w
  next : {u v : World} → Reach w u → Step u v → Reach w v

bust_balance_cache-IsCoherent :
    (b : ℕ) (w : World) → IsCoherent w → IsCoherent (bust_balance_cache b w)
unfolding bust_balance_cache
bust_balance_cache-IsCoherent b w h j v e = elim (Bool-cases (nat_eq b j)) [
  | inl same ↦ ground (arith, nat_eq_iff b j, lookup-delete_self j w.redis.balances)
  | inr other ↦ h j v (rw (lookup-delete_ne b j w.redis.balances other) at e)
]

Step-IsCoherent : {w w' : World} → Step w w' → IsCoherent w → IsCoherent w'
unfolding trigger_alerts_if_needed reactivate_grace_bots invalidate_pricing_cache
Step-IsCoherent {w} (get_balance_step b) h = get_balance-IsCoherent b w h
Step-IsCoherent {w} (get_action_cost_step a) h =
    IsCoherent-same w (get_action_cost a w).1 (get_action_cost-keeps a w).1
      (ap (λ (d : Db). d.wallets) (get_action_cost-keeps a w).0) h
Step-IsCoherent {w} (pre_flight_step b a) h = pre_flight_check-IsCoherent b a w h
Step-IsCoherent {w} (charge_step b u) h = charge-IsCoherent b u w h
Step-IsCoherent {w} (credit_step b c) h = credit-IsCoherent b c w h
Step-IsCoherent {w} (alerts_step b v bot now) h =
    let level = due_alert v (lookup b w.redis.alert_sent) in
    let (cache, wallets) = send_alert-keeps b level v bot now w in
    IsCoherent-same w (send_alert b level v bot now w) cache wallets h
Step-IsCoherent (reactivate_step b) h = h
Step-IsCoherent {w} (bust_step b) h = bust_balance_cache-IsCoherent b w h
Step-IsCoherent invalidate_step h = h

Reach-IsCoherent : {w w' : World} → IsCoherent w → Reach w w' → IsCoherent w'
Reach-IsCoherent h here = h
Reach-IsCoherent h (next r s) = Step-IsCoherent s (Reach-IsCoherent h r)

-- From a world whose cache agrees with its wallets, and after any sequence of calls of the metering
-- service and of expiries of balance keys, `get_balance` returns the balance that the database holds
-- for the business (0 without a wallet), whether or not the cache is hit.
pub get_balance-eq-db_balance :
    (w w' : World) (b : ℕ) → IsCoherent w → Reach w w' → (get_balance b w').0 ≡ db_balance b w'.db
unfolding get_balance
get_balance-eq-db_balance w w' b h r = elim (Option-cases (lookup b w'.redis.balances)) [
  | inl miss ↦ rw (miss, get_balance)
  | inr (v, hit) ↦ rw (hit, get_balance) (Reach-IsCoherent h r b v hit)
]
