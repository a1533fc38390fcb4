-- ===== src/Billing/Purchase.antt =====
-- A purchase of ETG from its order to its payment, in app/api/billing.py.
use ethiogram.Base.{ℕ, ◌+◌, ◌≡◌, refl, ap, true, false, some, [], ◌∷◌, keep}
use ethiogram.Base.Int.{pos, ◌+ℤ◌}
use ethiogram.Base.Texts.{text_equal_iff}
use ethiogram.Models.{World, TokenWallet, EtgPackage, PaymentProvider, Settings, RechargeOrder}
use ethiogram.Request.{ok}
use ethiogram.Metering.{find_wallet}
use ethiogram.Billing.{
  Callback, Chapa, has_reference, signed_with, truthy, too_little, chapa_webhook, tx_ref, new_order,
  find_package, is_owner, initiate_recharge, assert_owner,
}
use ethiogram.Billing.Confirmation.{IsPayable, chapa_webhook_once}

module _ {Body Verified Float : Type 0} (chapa : Chapa Body Verified Float)
    (settings : Settings) where
  -- A purchase through Chapa by the owner of a business with a wallet, of a package on sale, where
  -- no order has the new order's reference yet: the order is accepted and stays pending, and a
  -- callback with its reference that is rightly signed, and for which Chapa confirms enough, adds
  -- the package's amount and bonus to the wallet.
  pub initiate_recharge-chapa_webhook :
      (b package_id user_id now : ℕ) (call : Callback Body) (v : Verified) (w : World)
      (pkg : EtgPackage) (t : TokenWallet)
      → is_owner user_id b w.db ≡ true
      → find_package package_id w.db ≡ some pkg
      → find_wallet b w.db ≡ some t
      → keep (has_reference (tx_ref w.db.next_id)) w.db.orders ≡ []
      → signed_with chapa (truthy settings.chapa_webhook_secret) call ≡ true
      → chapa.reference_of call.body ≡ some (some (tx_ref w.db.next_id))
      → chapa.verify (tx_ref w.db.next_id) ≡ some v
      → too_little chapa v (new_order w.db.next_id b pkg PaymentProvider.chapa) ≡ false
      → let (r, ordered) = initiate_recharge b package_id PaymentProvider.chapa user_id w in
        let (paid, w') = chapa_webhook chapa settings call now ordered in
        (r ≡ ok (new_order w.db.next_id b pkg PaymentProvider.chapa))
        × (paid ≡ ok tt)
        × ((t' : TokenWallet) × (find_wallet b w'.db ≡ some t')
            × (t'.balance ≡ t.balance +ℤ pos (pkg.etg_amount + pkg.bonus_etg)))
  unfolding initiate_recharge assert_owner
  initiate_recharge-chapa_webhook b package_id user_id now call v w pkg t own pkg_found wallet fresh
        signed named verified enough =
      let order : RechargeOrder = new_order w.db.next_id b pkg PaymentProvider.chapa in
      let ordered : World = record w {
        db = record w.db { next_id = w.db.next_id + 1; orders = order ∷ w.db.orders };
      } in
      let found : has_reference (tx_ref w.db.next_id) order ≡ true =
        (text_equal_iff (tx_ref w.db.next_id) (tx_ref w.db.next_id)).1 refl in
      let p : IsPayable chapa settings call ordered.db (tx_ref w.db.next_id) order = record {
        signed = signed;
        reference = named;
        single = rw found (ap (λ os. order ∷ os) fresh);
        pending = refl;
        payment = v;
        verified = verified;
        enough = enough;
      } in
      let (done, credited, grace, again) =
        chapa_webhook_once chapa settings call call now now ordered (tx_ref w.db.next_id) order t p
          wallet named in
      rw own (rw pkg_found (refl, done, credited))
