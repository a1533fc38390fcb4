-- ===== src/Tests/Payments.antt =====
-- A recharge of the sample market's shop: app/api/billing.py.
use ethiogram.Base.{ℕ, ◌+◌, ◌*◌, ltb, ◌≡◌, ◌⊎◌, refl, true, some, [], ◌∷◌, count_if}
use ethiogram.Base.Int.{pos, ◌+ℤ◌}
use ethiogram.Base.Texts.{Text}
use ethiogram.Models.{
  World, Db, TokenWallet, EtgPackage, PaymentProvider, RechargeOrder, default_settings, empty_redis,
  Settings,
}
use ethiogram.Request.{ok}
use ethiogram.Metering.{find_wallet, in_grace}
use ethiogram.Billing.{
  Callback, Chapa, Floats, chapa_webhook, complete, new_order, tx_ref, initiate_recharge,
  assert_owner,
}
use ethiogram.Billing.Confirmation.{IsPayable, chapa_webhook_decides, chapa_webhook_once}
use ethiogram.Tests.Samples.{market_db, shop_wallet}

abbrev pub bundle : EtgPackage
bundle = record {
  id = 50;
  etg_amount = 5000;
  bonus_etg = 250;
  price_usd = 9;
  price_etb = 1500;
  is_active = true;
}

-- Amounts as whole hundredths.
abbrev hundredths : Floats ℕ
hundredths = record { price = λ n. n * 100; cent = 1; add = λ a b. a + b; less = λ a b. ltb a b }

-- A body is the reference that it names; a payment is its amount.
abbrev pub chapa : Chapa Text ℕ ℕ
chapa = record {
  hmac_hexdigest = λ secret body. "digest";
  reference_of = λ body. some (some body);
  verify = λ r. some 150000;
  amount_of = λ v. some v;
  floats = hundredths;
}

abbrev pub signed_settings : Settings
signed_settings = record default_settings { chapa_webhook_secret = some "key" }

abbrev pub call : Callback Text
call = record { signature = some "digest"; body = tx_ref 1000 }

abbrev pub order : RechargeOrder
order = new_order 1000 10 bundle PaymentProvider.chapa

abbrev pub shelf : World
shelf = record { db = record market_db { packages = bundle ∷ [] }; redis = empty_redis }

abbrev ordered_db : Db
ordered_db = record market_db { next_id = 1001; packages = bundle ∷ []; orders = order ∷ [] }

abbrev ordered : World
ordered = record { db = ordered_db; redis = empty_redis }

recharge_orders : initiate_recharge 10 50 PaymentProvider.chapa 1 shelf ≡ (ok order, ordered)
unfolding initiate_recharge assert_owner
recharge_orders = refl

ordered-IsPayable : IsPayable chapa signed_settings call ordered_db (tx_ref 1000) order
ordered-IsPayable = record {
  signed = refl;
  reference = refl;
  single = refl;
  pending = refl;
  payment = 150000;
  verified = refl;
  enough = refl;
}

chapa_webhook_once_example :
    let (result, w') = chapa_webhook chapa signed_settings call 60 ordered in
    (result ≡ ok tt)
    × ((t' : TokenWallet) × (find_wallet 10 w'.db ≡ some t') × (t'.balance ≡ pos 1000 +ℤ pos 5250))
    × (count_if (in_grace 10) w'.db.bots ≡ 0)
    × ((chapa_webhook chapa signed_settings call 70 w').1 ≡ w')
chapa_webhook_once_example =
    chapa_webhook_once chapa signed_settings call call 60 70 ordered (tx_ref 1000) order shop_wallet
      ordered-IsPayable refl refl

chapa_webhook_decides_example :
    ((r : Text) × (o : RechargeOrder) × IsPayable chapa signed_settings call ordered_db r o
      × (chapa_webhook chapa signed_settings call 60 ordered ≡ (ok tt, complete o r 60 ordered)))
    ⊎ ((chapa_webhook chapa signed_settings call 60 ordered).1 ≡ ordered)
chapa_webhook_decides_example = chapa_webhook_decides chapa signed_settings call 60 ordered
