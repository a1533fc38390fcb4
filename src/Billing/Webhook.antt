-- ===== src/Billing/Webhook.antt =====
-- `chapa_webhook` of app/api/billing.py.
use ethiogram.Base.{
  ℕ, ◌+◌, String, Bool, true, false, not, Option, none, some, modify_first, keep, ◌==◌, eq_string,
  if◌then◌else◌,
}
use ethiogram.Base.Int.{pos}
use ethiogram.Base.Texts.{eq_text, Text}
use ethiogram.Models.{World, RechargeOrder, PaymentStatus, is_pending, uuid, Error, Settings}
use ethiogram.Request.{Action, ok, pure, raise_if, ◌>>◌, or_raise, one_or_none, ◌>>=◌, ◌>>◌}
use ethiogram.Metering.{Credit, credit, reactivate_grace_bots}

-- Python's floats: a price as it is stored, 0.01, the sum and the order.
pub record Floats (Float : Type 0) : Type 0 where
  pub price : ℕ → Float
  pub cent : Float
  pub add : Float → Float → Float
  pub less : Float → Float → Bool

pub record Callback (Body : Type 0) : Type 0 where
  pub signature : Option String
  pub body : Body

abbrev pub has_reference : Text → RechargeOrder → Bool
has_reference r order = elim order.payment_reference [ none ↦ false | some t ↦ t == r ]

abbrev pub completed : ℕ → RechargeOrder → RechargeOrder
completed now order = record order { status = PaymentStatus.completed; completed_at = some now }

-- The description also names the amount.
abbrev pub recharge_credit : RechargeOrder → Credit
recharge_credit order = record {
  amount = pos (order.etg_amount + order.bonus_etg);
  description = "Chapa recharge";
  reference_type = "recharge";
  reference_id = some (uuid order.id);
  admin_id = none;
}

abbrev pub mark_completed : Text → ℕ → World → World
mark_completed r now w = record w {
  db = record w.db { orders = modify_first (has_reference r) (completed now) w.db.orders };
}

-- The order's row, the wallet, and the bots in grace.
unfoldable pub complete : RechargeOrder → Text → ℕ → World → World
unfolding credit reactivate_grace_bots
complete order r now w =
    let (_, paid) = credit order.business_id (recharge_credit order) (mark_completed r now w) in
    let (_, db) = reactivate_grace_bots order.business_id paid.db in record paid { db = db }

abbrev pub truthy : Option String → Option String
truthy none = none
truthy (some s) = if s == "" then none else some s

-- What the handler asks of others: the HMAC of a body, the `tx_ref` or else the `trx_ref` of its JSON
-- (none where it is malformed, and an inner none where neither is given), and the payment as Chapa
-- confirms it, with its amount as `float` reads it (none where that raises).
pub record Chapa (Body Verified Float : Type 0) : Type 0 where
  pub hmac_hexdigest : (secret : String) → Body → String
  pub reference_of : Body → Option (Option Text)
  pub verify : Text → Option Verified
  pub amount_of : Verified → Option Float
  pub floats : Floats Float

module _ {Body Verified Float : Type 0} (chapa : Chapa Body Verified Float) where
  abbrev pub signed_with : Option String → Callback Body → Bool
  signed_with none call = true
  signed_with (some secret) call = elim (truthy call.signature) [
    | none ↦ false
    | some given ↦ chapa.hmac_hexdigest secret call.body == given
  ]

  -- `float(verified.get("amount", 0)) + 0.01 < float(order.fiat_amount)`. Where Chapa's amount is no
  -- number the comparison raises, and the payment passes.
  abbrev pub too_little : Verified → RechargeOrder → Bool
  too_little v order = elim (chapa.amount_of v) [
    | none ↦ false
    | some amount ↦
        chapa.floats.less (chapa.floats.add amount chapa.floats.cent)
          (chapa.floats.price order.fiat_amount)
  ]

  abbrev pub confirm : RechargeOrder → Text → ℕ → Option Verified → Action Unit
  confirm order r now none w = (ok tt, w)
  confirm order r now (some v) w = (ok tt, if too_little v order then w else complete order r now w)

  abbrev pub process : Text → ℕ → Option RechargeOrder → Action Unit
  process r now none = pure tt
  process r now (some order) =
      let go = confirm order r now (chapa.verify r) in
      if is_pending order.status then go else pure tt

  abbrev pub process_reference : ℕ → Option Text → Action Unit
  process_reference now none = pure tt
  process_reference now (some r) = do
    order ← (λ w. one_or_none (keep (has_reference r) w.db.orders) w)
    process r now order

  unfoldable pub chapa_webhook : Settings → Callback Body → ℕ → Action Unit
  unfolding complete
  chapa_webhook settings call now = do
    raise_if (not (signed_with (truthy settings.chapa_webhook_secret) call))
        (Error.http_exception 401)
    reference ← or_raise (chapa.reference_of call.body) (Error.http_exception 400)
    process_reference now reference
