-- ===== src/Tests/Shelf.antt =====
-- Trials and reviews of app/api/agents.py, and the wallet's settings and purchases of
-- app/api/billing.py, on the sample market.
use ethiogram.Base.{◌+◌, ◌≤◌, ◌≡◌, refl, true, false, none, some, [], ◌∷◌, arith, max}
use ethiogram.Base.Int.{pos, negsuc, ◌+ℤ◌}
use ethiogram.Models.{
  World, AgentTrial, TokenWallet, Error, default_settings, empty_redis, AgentUnlock,
  PaymentProvider,
}
use ethiogram.Request.{ok, err}
use ethiogram.Metering.{find_wallet}
use ethiogram.Agents.{start_trial, submit_review, deployed, find_trial, days}
use ethiogram.Agents.Once.{IsTriable, is_ok, start_trial_once, IsReviewedOnce}
use ethiogram.Billing.{AutoRechargeRequest, initiate_recharge, chapa_webhook}
use ethiogram.Billing.Purchase.{initiate_recharge-chapa_webhook}
use ethiogram.Billing.Settings.{AreSensible}
use ethiogram.Tests.Samples.{market, market_db, shop_wallet, concierge, plain, deploy}
use ethiogram.Tests.Payments.{bundle, chapa, signed_settings, call, shelf, order}

market-IsTriable : IsTriable default_settings 5 10 1 market_db concierge
market-IsTriable = record { agent = refl; live = refl; owned = refl; fresh = refl; room = refl }

start_trial_once_example :
    let (r, w') = start_trial plain default_settings 5 deploy 1 100 market in
    (is_ok r ≡ true)
    × ((t : AgentTrial) × (find_trial 5 10 w'.db ≡ some t) × (t.expires_at ≡ 100 + days 15))
    × (deployed 10 w'.db ≤ max (deployed 10 market_db) 10)
    × (start_trial plain default_settings 5 deploy 1 200 w'
        ≡ (err (Error.already_exists "AgentTrial"), w'))
start_trial_once_example =
    start_trial_once plain default_settings 5 deploy 1 100 market deploy 200 {a = concierge}
      market-IsTriable refl

abbrev bought : AgentUnlock
bought = record {
  id = 80;
  agent_id = 5;
  business_id = 10;
  child_agent_id = none;
  etg_paid = 700;
  escrow_id = none;
  is_refunded = false;
}

abbrev reviewed : World
reviewed = record { db = record market_db { unlocks = bought ∷ [] }; redis = empty_redis }

reviewed-IsReviewedOnce : IsReviewedOnce reviewed.db
reviewed-IsReviewedOnce a b = omega arith

review_stands : (submit_review 5 4 1 reviewed).0 ≡ ok 1000
unfolding submit_review
review_stands = refl

initiate_recharge-chapa_webhook_example :
    let (r, ordered) = initiate_recharge 10 50 PaymentProvider.chapa 1 shelf in
    let (paid, w') = chapa_webhook chapa signed_settings call 60 ordered in
    (r ≡ ok order)
    × (paid ≡ ok tt)
    × ((t' : TokenWallet) × (find_wallet 10 w'.db ≡ some t') × (t'.balance ≡ pos 1000 +ℤ pos 5250))
initiate_recharge-chapa_webhook_example =
    initiate_recharge-chapa_webhook chapa signed_settings 10 50 1 60 call 150000 shelf bundle
      shop_wallet refl refl refl refl refl refl refl refl

abbrev negative : AutoRechargeRequest
negative = record { enabled = true; threshold = some (negsuc 4); amount = none; provider = none }

market-AreSensible : AreSensible market_db
market-AreSensible = ((omega arith, omega arith), ((omega arith, omega arith), tt))
