-- ===== src/Credits/Internal.antt =====
-- `internal_chapa_credit` of app/api/internal.py: Odaflux credits a wallet after a payment that was
-- verified there.
use ethiogram.Base.{ℕ, String, not, none, some, ◌==◌, eq_string}
use ethiogram.Base.Int.{ℤ, pos, leb_ℤ}
use ethiogram.Models.{World, Settings, text, Error}
use ethiogram.Request.{Action, ok, raise_if, ◌>>◌}
use ethiogram.Metering.{Credit, credit, reactivate_grace_bots}

-- The metadata of Chapa are only logged.
pub record ChapaCreditPayload : Type 0 where
  pub user_id : String
  pub business_id : ℕ
  pub amount : ℤ
  pub tx_ref : String

-- The description also names the user and the reference where there is one.
abbrev pub odaflux_credit : ChapaCreditPayload → Credit
odaflux_credit payload = record {
  amount = payload.amount;
  description = "Chapa recharge via Odaflux";
  reference_type = "recharge";
  reference_id = some (text payload.tx_ref);
  admin_id = none;
}

-- The credit, and the bots in grace.
unfoldable pub credit_and_wake : ChapaCreditPayload → World → ℤ × World
unfolding credit reactivate_grace_bots
credit_and_wake payload w =
    let (balance, paid) = credit payload.business_id (odaflux_credit payload) w in
    let (_, db) = reactivate_grace_bots payload.business_id paid.db in
    (balance, record paid { db = db })

-- The result is the new balance.
unfoldable pub internal_chapa_credit :
    Settings → (x_internal_key : String) → ChapaCreditPayload → Action ℤ
unfolding credit_and_wake
internal_chapa_credit settings x_internal_key payload = do
  raise_if (settings.chapa_internal_key == "") (Error.http_exception 500)
  raise_if (not (x_internal_key == settings.chapa_internal_key)) (Error.http_exception 401)
  raise_if (leb_ℤ payload.amount (pos 0)) (Error.http_exception 400)
  (λ w. let (balance, w') = credit_and_wake payload w in (ok balance, w'))
