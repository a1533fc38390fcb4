-- ===== src/Billing/Recharge.antt =====
-- The wallet's handlers of app/api/billing.py and the order of a recharge. The call to the payment
-- service in `_get_payment_url` gives only the address of the payment page, and is left out.
use ethiogram.Base.{
  ℕ, ◌+◌, String, Bool, ◌&&◌, not, Option, none, some, ◌∷◌, find_first, modify_first, nat_eq,
  is_some, if◌then◌else◌,
}
use ethiogram.Base.Int.{ℤ, pos, ltb_ℤ}
use ethiogram.Base.Texts.{Text, decimal_text}
use ethiogram.Models.{
  Db, Business, TokenWallet, EtgPackage, RechargeOrder, PaymentProvider, PaymentStatus, is_chapa,
  pays_birr, Error,
}
use ethiogram.Request.{Action, pure, gets, modify_db, or_raise, raise_if, ◌>>=◌, ◌>>◌}
use ethiogram.Metering.{owns_wallet, find_wallet}

-- `_assert_owns_business` of this file: a suspended or deleted business passes.
abbrev pub is_owner : ℕ → ℕ → Db → Bool
is_owner user_id business_id db = is_some (
    find_first (λ (b : Business). nat_eq b.id business_id && nat_eq b.owner_id user_id)
      db.businesses)

unfoldable pub assert_owner : ℕ → ℕ → Action Unit
assert_owner user_id business_id = do
  owner ← gets (λ w. is_owner user_id business_id w.db)
  raise_if (not owner) (Error.not_found "Business")

unfoldable pub get_wallet : ℕ → ℕ → Action TokenWallet
unfolding assert_owner
get_wallet business_id user_id = do
  assert_owner user_id business_id
  found ← gets (λ w. find_wallet business_id w.db)
  or_raise found (Error.not_found "Wallet")

pub record AutoRechargeRequest : Type 0 where
  pub enabled : Bool
  pub threshold : Option ℤ
  pub amount : Option ℤ
  pub provider : Option String

abbrev pub modify_wallet : ℕ → (TokenWallet → TokenWallet) → Action Unit
modify_wallet business_id f =
    modify_db (λ db. record db { wallets = modify_first (owns_wallet business_id) f db.wallets })

abbrev pub set_threshold : ℕ → Option ℤ → Action Unit
set_threshold b none = pure tt
set_threshold b (some t) = do
  raise_if (ltb_ℤ t (pos 0)) (Error.validation_error "Threshold must be >= 0")
  modify_wallet b (λ wallet. record wallet { auto_recharge_threshold = t })

abbrev pub set_amount : ℕ → Option ℤ → Action Unit
set_amount b none = pure tt
set_amount b (some a) = do
  raise_if (not (ltb_ℤ (pos 0) a)) (Error.validation_error "Recharge amount must be > 0")
  modify_wallet b (λ wallet. record wallet { auto_recharge_amount = a })

abbrev pub set_provider : ℕ → Option String → Action Unit
set_provider b none = pure tt
set_provider b (some p) =
    modify_wallet b (λ wallet. record wallet { auto_recharge_provider = some p })

unfoldable pub update_auto_recharge : ℕ → AutoRechargeRequest → ℕ → Action Unit
unfolding assert_owner
update_auto_recharge business_id body user_id = do
  assert_owner user_id business_id
  found ← gets (λ w. find_wallet business_id w.db)
  or_raise found (Error.not_found "Wallet")
  modify_wallet business_id (λ wallet. record wallet { auto_recharge_enabled = body.enabled })
  set_threshold business_id body.threshold
  set_amount business_id body.amount
  set_provider business_id body.provider

-- `f"etg-{order.id}"`
abbrev pub tx_ref : ℕ → Text
tx_ref id = 101 ∷ 116 ∷ 103 ∷ 45 ∷ decimal_text id

-- `_resolve_fiat`
abbrev pub resolve_fiat : EtgPackage → PaymentProvider → ℕ × String
resolve_fiat pkg provider =
    if pays_birr provider then (pkg.price_etb, "ETB") else (pkg.price_usd, "USD")

-- The row as `_get_payment_url` leaves it.
abbrev pub new_order : ℕ → ℕ → EtgPackage → PaymentProvider → RechargeOrder
new_order id business_id pkg provider =
    let (fiat_amount, fiat_currency) = resolve_fiat pkg provider in
    record {
      id = id;
      business_id = business_id;
      etg_package_id = some pkg.id;
      etg_amount = pkg.etg_amount;
      fiat_amount = fiat_amount;
      fiat_currency = fiat_currency;
      payment_provider = provider;
      payment_reference = if is_chapa provider then some (tx_ref id) else none;
      status = PaymentStatus.pending;
      completed_at = none;
      bonus_etg = pkg.bonus_etg;
    }

abbrev pub find_package : ℕ → Db → Option EtgPackage
find_package id db = find_first (λ (p : EtgPackage). nat_eq p.id id && p.is_active) db.packages

-- The request's provider is one of the enumeration, by its validator.
unfoldable pub initiate_recharge : ℕ → ℕ → PaymentProvider → ℕ → Action RechargeOrder
unfolding assert_owner
initiate_recharge business_id package_id provider user_id = do
  assert_owner user_id business_id
  found ← gets (λ w. find_package package_id w.db)
  pkg ← or_raise found (Error.not_found "Package")
  id ← gets (λ w. w.db.next_id)
  modify_db (λ db. record db {
    next_id = id + 1;
    orders = new_order id business_id pkg provider ∷ db.orders;
  })
  pure (new_order id business_id pkg provider)
