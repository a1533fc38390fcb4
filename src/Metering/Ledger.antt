-- ===== src/Metering/Ledger.antt =====
-- The ledger rows that `charge` and `credit` of app/core/metering.py write, against the wallet.
use ethiogram.Base.{
  ℕ, ◌+◌, ◌≡◌, refl, ◌∙◌, true, some, List, [], ◌∷◌, arith, nat_eq, nat_eq_iff, if◌then◌else◌,
}
use ethiogram.Base.Int.{ℤ, pos, ◌+ℤ◌, ◌-ℤ◌, ◌≤ℤ◌, max_zero, int_laws}
use ethiogram.Models.{World, Db, TokenWallet, EtgTransaction}
use ethiogram.Metering.{
  find_wallet, get_action_cost, Usage, token_surcharge, debit, charge, charge_wallet, Credit,
  deposit, credit, ensure_wallet,
}
use ethiogram.Metering.Cache.{get_action_cost-keeps, find_wallet-modify_self}

-- The `balance_after` of the newest row of a wallet, or its balance before the first row.
abbrev pub last_balance : ℤ → ℕ → List EtgTransaction → ℤ
last_balance base id [] = base
last_balance base id (x ∷ xs) =
    if nat_eq x.wallet_id id then x.balance_after else last_balance base id xs

-- Each row begins at the balance at which the row before it ended. The newest row comes first.
abbrev pub IsChain : ℤ → ℕ → List EtgTransaction → Type 0
IsChain base id [] = Unit
IsChain base id (x ∷ xs) =
    (nat_eq x.wallet_id id ≡ true → x.balance_before ≡ last_balance base id xs) × IsChain base id xs

-- The sum of the amounts that the ledger names for a wallet.
abbrev pub booked : ℕ → List EtgTransaction → ℤ
booked id [] = pos 0
booked id (x ∷ xs) = if nat_eq x.wallet_id id then x.amount +ℤ booked id xs else booked id xs

-- The wallet of a business against its rows: they form a chain that ends at the balance, and the
-- amounts add up to no more than the balance has grown.
pub record IsAudited (base : ℤ) (b : ℕ) (db : Db) (t : TokenWallet) : Type 0 where
  pub found : find_wallet b db ≡ some t
  pub chain : IsChain base t.id db.transactions
  pub latest : last_balance base t.id db.transactions ≡ t.balance
  pub amounts : base +ℤ booked t.id db.transactions ≤ℤ t.balance

-- What a charge of `etg` leaves is no less than the plain difference.
pub max_zero-ge : (a : ℤ) → a ≤ℤ max_zero a
max_zero-ge (pos n) = omega arith
max_zero-ge (ℤ.negsuc n) = omega arith

-- One new row at the top of the ledger.
pub IsAudited-row :
    (base : ℤ) (b : ℕ) (db db' : Db) (t t' : TokenWallet) (x : EtgTransaction)
    → IsAudited base b db t
    → find_wallet b db' ≡ some t'
    → t'.id ≡ t.id
    → db'.transactions ≡ x ∷ db.transactions
    → x.wallet_id ≡ t.id
    → x.balance_before ≡ t.balance
    → x.balance_after ≡ t'.balance
    → t.balance +ℤ x.amount ≤ℤ t'.balance
    → IsAudited base b db' t'
IsAudited-row base b db db' t t' x a found same rows mine before after amount = record {
  found = found;
  chain = rw (same, rows) (λ h. ground (arith, a.latest), a.chain);
  latest = rw (same, rows) (rw ((nat_eq_iff x.wallet_id t.id).1 mine) after);
  amounts =
      rw (same, rows) (rw ((nat_eq_iff x.wallet_id t.id).1 mine) (omega (int_laws, a.amounts)));
}

-- The calls that move a balance.
pub data Op : Type 0 where
  charged : Usage → Op
  credited : Credit → Op

pub apply : ℕ → Op → World → World
apply b (charged u) w = (charge b u w).1
apply b (credited c) w = (credit b c w).1

-- A sequence of calls, the first one first.
pub run : ℕ → List Op → World → World
run b [] w = w
run b (op ∷ ops) w = run b ops (apply b op w)

abbrev after_op : Op → World → TokenWallet → TokenWallet
after_op (charged u) w t = debit ((get_action_cost u.action_type w).0 + token_surcharge u) t
after_op (credited c) w t = deposit c t

after_op-id : (op : Op) (w : World) (t : TokenWallet) → (after_op op w t).id ≡ t.id
after_op-id (charged u) w t = refl
after_op-id (credited c) w t = refl

pub IsAudited-db :
    (base : ℤ) (b : ℕ) (db db' : Db) (t : TokenWallet)
    → db' ≡ db
    → IsAudited base b db t
    → IsAudited base b db' t
IsAudited-db base b db db' t same a = rw same a

charge-IsAudited :
    (base : ℤ) (b : ℕ) (u : Usage) (w : World) (t : TokenWallet)
    → IsAudited base b w.db t
    → IsAudited base b (charge b u w).1.db (after_op (charged u) w t)
unfolding charge
charge-IsAudited base b u w t a =
    let (base_cost, w') = get_action_cost u.action_type w in
    let etg : ℕ = base_cost + token_surcharge u in
    let a' : IsAudited base b w'.db t =
      IsAudited-db base b w.db w'.db t (get_action_cost-keeps u.action_type w).0 a in
    rw (a'.found, charge_wallet)
      (IsAudited-row base b w'.db _ t (debit etg t) _ a'
        (find_wallet-modify_self (debit etg) (λ t. refl) b w'.db a'.found) refl refl refl refl refl
        (omega (int_laws, max_zero-ge (t.balance -ℤ pos etg))))

credit-IsAudited :
    (base : ℤ) (b : ℕ) (c : Credit) (w : World) (t : TokenWallet)
    → IsAudited base b w.db t
    → IsAudited base b (credit b c w).1.db (after_op (credited c) w t)
unfolding credit
credit-IsAudited base b c w t a =
    rw (a.found, ensure_wallet)
      (IsAudited-row base b w.db _ t (deposit c t) _ a
        (find_wallet-modify_self (deposit c) (λ t. refl) b w.db a.found) refl refl refl refl refl
        (omega int_laws))

apply-IsAudited :
    (base : ℤ) (b : ℕ) (op : Op) (w : World) (t : TokenWallet)
    → IsAudited base b w.db t
    → IsAudited base b (apply b op w).db (after_op op w t)
unfolding apply
apply-IsAudited base b (charged u) w t a = charge-IsAudited base b u w t a
apply-IsAudited base b (credited c) w t a = credit-IsAudited base b c w t a

-- If the ledger rows of a business's wallet form a chain (each row's `balance_before` is the
-- `balance_after` of the row before it) that ends at the wallet's balance, and the sum of their
-- amounts does not exceed the growth of the balance, then this still holds after any sequence of
-- charges and credits of that business, and the wallet is still there under its id.
pub run-IsAudited :
    (base : ℤ) (b : ℕ) (ops : List Op) (w : World) (t : TokenWallet)
    → IsAudited base b w.db t
    → (t' : TokenWallet) × IsAudited base b (run b ops w).db t' × (t'.id ≡ t.id)
unfolding run
run-IsAudited base b [] w t a = (t, a, refl)
run-IsAudited base b (op ∷ ops) w t a =
    let (t', a', same) =
      run-IsAudited base b ops (apply b op w) (after_op op w t) (apply-IsAudited base b op w t a) in
    (t', a', same ∙ after_op-id op w t)
