-- ===== src/Billing/Settings.antt =====
-- The automatic recharge of a wallet, as app/api/billing.py lets an owner set it.
use ethiogram.Base.{
  ℕ, Option, none, some, inl, inr, arith, All, All-modify_first, Bool-cases, String,
}
use ethiogram.Base.Int.{ℤ, pos, ◌≤ℤ◌, ltb_ℤ}
use ethiogram.Models.{World, Db, TokenWallet, Error}
use ethiogram.Request.{Action, ◌>>=◌, ◌>>◌, gets, or_raise, transaction}
use ethiogram.Request.Preserves.{
  Preserves, bind-Preserves, or_raise-Preserves, transaction-Preserves,
}
use ethiogram.Metering.{find_wallet, owns_wallet}
use ethiogram.Billing.{
  AutoRechargeRequest, modify_wallet, set_threshold, set_amount, set_provider, update_auto_recharge,
  assert_owner,
}

-- A threshold that is not negative, and an amount that is positive.
abbrev pub IsSensible : TokenWallet → Type 0
IsSensible t = (pos 0 ≤ℤ t.auto_recharge_threshold) × (pos 1 ≤ℤ t.auto_recharge_amount)

abbrev pub AreSensible : Db → Type 0
AreSensible db = All IsSensible db.wallets

modify_wallet-AreSensible :
    (b : ℕ) (f : TokenWallet → TokenWallet)
    → ((t : TokenWallet) → IsSensible t → IsSensible (f t))
    → Preserves AreSensible (modify_wallet b f)
modify_wallet-AreSensible b f h w p =
    All-modify_first (owns_wallet b) f w.db.wallets (λ t mine old. h t old) p

set_threshold-AreSensible : (b : ℕ) (o : Option ℤ) → Preserves AreSensible (set_threshold b o)
set_threshold-AreSensible b none w p = p
set_threshold-AreSensible b (some z) w p = elim (Bool-cases (ltb_ℤ z (pos 0))) [
  | inl negative ↦ rw negative p
  | inr fine ↦ rw fine (modify_wallet-AreSensible b _ (λ t old. (ground arith, old.1)) w p)
]

set_amount-AreSensible : (b : ℕ) (o : Option ℤ) → Preserves AreSensible (set_amount b o)
set_amount-AreSensible b none w p = p
set_amount-AreSensible b (some z) w p = elim (Bool-cases (ltb_ℤ (pos 0) z)) [
  | inr zero ↦ rw zero p
  | inl fine ↦ rw fine (modify_wallet-AreSensible b _ (λ t old. (old.0, ground arith)) w p)
]

set_provider-AreSensible : (b : ℕ) (o : Option String) → Preserves AreSensible (set_provider b o)
set_provider-AreSensible b none w p = p
set_provider-AreSensible b (some s) w p = modify_wallet-AreSensible b _ (λ t old. old) w p

assert_owner-AreSensible : (user_id b : ℕ) → Preserves AreSensible (assert_owner user_id b)
unfolding assert_owner
assert_owner-AreSensible user_id b w p = ground (arith, p)

-- An update of the automatic recharge, accepted or refused, leaves every wallet with a threshold that is
-- not negative and an amount that is positive, if all had such before.
pub update_auto_recharge-AreSensible :
    (b : ℕ) (body : AutoRechargeRequest) (user_id : ℕ) (w : World)
    → AreSensible w.db
    → AreSensible (transaction (update_auto_recharge b body user_id) w).1.db
unfolding update_auto_recharge
update_auto_recharge-AreSensible b body user_id w p =
    let P = AreSensible in
    let last : Action Unit = set_amount b body.amount >> set_provider b body.provider in
    let both : Action Unit = set_threshold b body.threshold >> last in
    let switch : Action Unit =
      modify_wallet b (λ t. record t { auto_recharge_enabled = body.enabled }) in
    let rest : Option TokenWallet → Action Unit =
      λ found. or_raise found (Error.not_found "Wallet") >> (switch >> both) in
    let find : Action (Option TokenWallet) = gets (λ w. find_wallet b w.db) in
    let last_keeps =
      bind-Preserves P (set_amount b body.amount) (λ _. set_provider b body.provider)
        (set_amount-AreSensible b body.amount) (λ _. set_provider-AreSensible b body.provider) in
    let both_keeps =
      bind-Preserves P (set_threshold b body.threshold) (λ _. last)
        (set_threshold-AreSensible b body.threshold) (λ _. last_keeps) in
    let switch_keeps =
      bind-Preserves P switch (λ _. both) (modify_wallet-AreSensible b _ (λ t old. old))
        (λ _. both_keeps) in
    let rest_keeps : (found : Option TokenWallet) → Preserves P (rest found) = λ found.
      bind-Preserves P (or_raise found (Error.not_found "Wallet")) (λ _. switch >> both)
        (or_raise-Preserves P found _) (λ _. switch_keeps) in
    let all_keeps =
      bind-Preserves P (assert_owner user_id b) (λ _. find >>= rest)
        (assert_owner-AreSensible user_id b)
        (λ _. bind-Preserves P find rest (λ w p. p) rest_keeps) in
    transaction-Preserves P (update_auto_recharge b body user_id) all_keeps w p
