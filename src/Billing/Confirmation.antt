-- ===== src/Billing/Confirmation.antt =====
-- Payment callbacks to `chapa_webhook` of app/api/billing.py.
use ethiogram.Base.{
  ℕ, ◌+◌, ◌≡◌, refl, ap, ◌∙◌, Bool, true, false, none, some, List, [], ◌∷◌, inl, inr, ◌⊎◌, arith,
  modify_first, keep, count_if, Bool-cases, Option-cases, find_first-holds, find_first-modify_first,
}
use ethiogram.Base.Int.{pos, ◌+ℤ◌}
use ethiogram.Base.Texts.{Text}
use ethiogram.Models.{World, Db, RechargeOrder, TokenWallet, is_pending, Settings}
use ethiogram.Request.{ok}
use ethiogram.Metering.{credit, find_wallet, owns_wallet, deposit, in_grace, reactivate_grace_bots}
use ethiogram.Metering.Grace.{reactivate_grace_bots_lem}
use ethiogram.Billing.{
  Callback, Chapa, has_reference, completed, recharge_credit, mark_completed, complete, truthy,
  signed_with, too_little, process_reference, chapa_webhook,
}

complete-orders :
    (order : RechargeOrder) (r : Text) (now : ℕ) (w : World)
    → (complete order r now w).db.orders
      ≡ modify_first (has_reference r) (completed now) w.db.orders
unfolding complete credit reactivate_grace_bots
complete-orders order r now w = elim (Option-cases (find_wallet order.business_id w.db)) [
  | inl missing ↦ rw missing refl
  | inr (t, found) ↦ rw found refl
]

complete-wallet :
    (order : RechargeOrder) (r : Text) (now : ℕ) (w : World) (t : TokenWallet)
    → find_wallet order.business_id w.db ≡ some t
    → find_wallet order.business_id (complete order r now w).db
      ≡ some (deposit (recharge_credit order) t)
unfolding complete credit reactivate_grace_bots
complete-wallet order r now w t found = rw found (
    find_first-modify_first (owns_wallet order.business_id) (deposit (recharge_credit order))
      w.db.wallets found (find_first-holds (owns_wallet order.business_id) w.db.wallets found))

complete-grace :
    (order : RechargeOrder) (r : Text) (now : ℕ) (w : World)
    → count_if (in_grace order.business_id) (complete order r now w).db.bots ≡ 0
unfolding complete
complete-grace order r now w =
    (reactivate_grace_bots_lem order.business_id
      (credit order.business_id (recharge_credit order) (mark_completed r now w)).1.db).0

keep-holds :
    {A : Type 0} (p : A → Bool) (xs : List A) {x : A} {ys : List A}
    → keep p xs ≡ x ∷ ys
    → p x ≡ true
keep-holds p [] e = cc
keep-holds p (z ∷ xs) {x} {ys} e = ground (arith, keep-holds p xs {x = x} {ys = ys})

keep-modify_first :
    {A : Type 0} (p : A → Bool) (f : A → A) (xs : List A) {x : A}
    → keep p xs ≡ x ∷ []
    → p (f x) ≡ true
    → keep p (modify_first p f xs) ≡ f x ∷ []
keep-modify_first p f [] e h = cc
keep-modify_first p f (y ∷ xs) {x} e h = elim (Bool-cases (p y)) [
  | inl fits ↦ ground arith
  | inr other ↦ ground (arith, keep-modify_first p f xs {x = x})
]

-- What a callback needs to be credited: its signature is right or none is asked for, its reference is
-- that of one order, which is pending, and Chapa confirms a payment that is not too little.
pub record IsPayable {Body Verified Float : Type 0} (chapa : Chapa Body Verified Float)
    (settings : Settings) (call : Callback Body) (db : Db) (r : Text) (order : RechargeOrder)
    : Type 0 where
  pub signed : signed_with chapa (truthy settings.chapa_webhook_secret) call ≡ true
  pub reference : chapa.reference_of call.body ≡ some (some r)
  pub single : keep (has_reference r) db.orders ≡ order ∷ []
  pub pending : is_pending order.status ≡ true
  pub payment : Verified
  pub verified : chapa.verify r ≡ some payment
  pub enough : too_little chapa payment order ≡ false

module _ {Body Verified Float : Type 0} (chapa : Chapa Body Verified Float)
    (settings : Settings) where
  pub chapa_webhook-eq_complete :
      (call : Callback Body) (now : ℕ) (w : World) (r : Text) (order : RechargeOrder)
      → IsPayable chapa settings call w.db r order
      → chapa_webhook chapa settings call now w ≡ (ok tt, complete order r now w)
  unfolding chapa_webhook
  chapa_webhook-eq_complete call now w r order p =
      rw (p.signed, p.reference) (rw p.single (rw (p.pending, p.verified) (rw p.enough refl)))

  -- A callback with the reference of a single order that is not pending changes nothing.
  resolved_order :
      (call : Callback Body) (now : ℕ) (w : World) (r : Text) (order : RechargeOrder)
      → chapa.reference_of call.body ≡ some (some r)
      → keep (has_reference r) w.db.orders ≡ order ∷ []
      → is_pending order.status ≡ false
      → (chapa_webhook chapa settings call now w).1 ≡ w
  unfolding chapa_webhook
  resolved_order call now w r order reference single done =
      elim (Bool-cases (signed_with chapa (truthy settings.chapa_webhook_secret) call)) [
        | inl signed ↦ rw (signed, reference) (rw single (rw done refl))
        | inr forged ↦ rw forged refl
      ]

  -- The same for the order that a reference finds.
  process_reference_decides :
      (call : Callback Body) (now : ℕ) (w : World) (r : Text)
      → signed_with chapa (truthy settings.chapa_webhook_secret) call ≡ true
      → chapa.reference_of call.body ≡ some (some r)
      → (os : List RechargeOrder) → keep (has_reference r) w.db.orders ≡ os
      → ((order : RechargeOrder) × IsPayable chapa settings call w.db r order)
        ⊎ ((process_reference chapa now (some r) w).1 ≡ w)
  process_reference_decides call now w r signed reference [] e = inr (rw e refl)
  process_reference_decides call now w r signed reference (a ∷ b ∷ os) e = inr (rw e refl)
  process_reference_decides call now w r signed reference (o ∷ []) e =
      elim (Bool-cases (is_pending o.status)) [
        | inr done ↦ inr (rw e (rw done refl))
        | inl open_order ↦ elim (Option-cases (chapa.verify r)) [
          | inl unverified ↦ inr (rw e (rw (open_order, unverified) refl))
          | inr (v, verified) ↦ elim (Bool-cases (too_little chapa v o)) [
            | inl short ↦ inr (rw e (rw (open_order, verified) (rw short refl)))
            | inr enough ↦ inl (
              o,
              record {
                signed = signed;
                reference = reference;
                single = e;
                pending = open_order;
                payment = v;
                verified = verified;
                enough = enough;
              },
            )
          ]
        ]
      ]

  -- A callback either is payable, and then completes its order, or it changes nothing at all: neither
  -- the database nor the cache.
  pub chapa_webhook_decides :
      (call : Callback Body) (now : ℕ) (w : World)
      → ((r : Text) × (order : RechargeOrder) × IsPayable chapa settings call w.db r order
          × (chapa_webhook chapa settings call now w ≡ (ok tt, complete order r now w)))
        ⊎ ((chapa_webhook chapa settings call now w).1 ≡ w)
  unfolding chapa_webhook
  chapa_webhook_decides call now w =
      elim (Bool-cases (signed_with chapa (truthy settings.chapa_webhook_secret) call)) [
        | inr forged ↦ inr (rw forged refl)
        | inl signed ↦ elim (Option-cases (chapa.reference_of call.body)) [
          | inl malformed ↦ inr (rw (signed, malformed) refl)
          | inr (none, absent) ↦ inr (rw (signed, absent) refl)
          | inr (some r, named) ↦
              elim (process_reference_decides call now w r signed named
                (keep (has_reference r) w.db.orders) refl) [
                  | inl (order, p) ↦
                      inl (r, order, p, chapa_webhook-eq_complete call now w r order p)
                  | inr same ↦ inr (rw (signed, named) same)
                ]
        ]
      ]

  -- A payable callback, for an order of a business that has a wallet, pays the order once: it
  -- answers without an error, the wallet grows by the order's amount and bonus, no bot of the
  -- business is left in grace, and any other callback with the same reference, whenever it comes
  -- and however it is signed, changes nothing.
  pub chapa_webhook_once :
      (call again : Callback Body) (now later : ℕ) (w : World) (r : Text) (order : RechargeOrder)
      (t : TokenWallet)
      → IsPayable chapa settings call w.db r order
      → find_wallet order.business_id w.db ≡ some t
      → chapa.reference_of again.body ≡ some (some r)
      → let (result, w') = chapa_webhook chapa settings call now w in
        (result ≡ ok tt)
        × ((t' : TokenWallet) × (find_wallet order.business_id w'.db ≡ some t')
            × (t'.balance ≡ t.balance +ℤ pos (order.etg_amount + order.bonus_etg)))
        × (count_if (in_grace order.business_id) w'.db.bots ≡ 0)
        × ((chapa_webhook chapa settings again later w').1 ≡ w')
  chapa_webhook_once call again now later w r order t p found same =
      rw (chapa_webhook-eq_complete call now w r order p) (
        refl,
        (deposit (recharge_credit order) t, complete-wallet order r now w t found, refl),
        complete-grace order r now w,
        resolved_order again later (complete order r now w) r (completed now order) same
            (ap (keep (has_reference r)) (complete-orders order r now w)
              ∙ keep-modify_first (has_reference r) (completed now) w.db.orders p.single
                  (keep-holds (has_reference r) w.db.orders p.single))
            refl,
      )
