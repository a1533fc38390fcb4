-- ===== src/Tests/Economy.antt =====
-- The metering service of app/core/metering.py on the sample market.
use ethiogram.Base.{◌≡◌, refl, none, some, List, [], ◌∷◌, arith}
use ethiogram.Base.Int.{ℤ, pos, ◌+ℤ◌, ◌-ℤ◌}
use ethiogram.Models.{World, Db, TokenWallet, AlertType, BotStatus, empty_redis}
use ethiogram.Request.{ok}
use ethiogram.Metering.{
  Usage, charge, get_balance, db_balance, pre_flight_check, Credit, get_action_cost, find_wallet,
}
use ethiogram.Metering.Cache.{IsCoherent, Reach, Step, get_balance-eq-db_balance}
use ethiogram.Metering.Ledger.{IsAudited, Op, run, run-IsAudited}
use ethiogram.Metering.Spending.{charge-pre_flight_check}
use ethiogram.Tests.Samples.{market, market_db, shop_wallet, shop_bot}

abbrev reply : Usage
reply = record {
  action_type = "ai_reply";
  model_tier = none;
  input_tokens = 10;
  output_tokens = 20;
  bot_id = some 6;
  conversation_id = none;
  reference_id = none;
}

abbrev recharge : Credit
recharge = record {
  amount = pos 40;
  description = "Recharge";
  reference_type = "recharge";
  reference_id = none;
  admin_id = none;
}

market-IsCoherent : IsCoherent market
market-IsCoherent b v e = absurd (cc)

charge-Reach : Reach market (charge 10 reply market).1
charge-Reach = Reach.next Reach.here (Step.charge_step 10 reply)

get_balance-eq-db_balance_example :
    (get_balance 10 (charge 10 reply market).1).0 ≡ db_balance 10 (charge 10 reply market).1.db
get_balance-eq-db_balance_example =
    get_balance-eq-db_balance market (charge 10 reply market).1 10 market-IsCoherent charge-Reach

balance_after_charge : (get_balance 10 (charge 10 reply market).1).0 ≡ pos 998
unfolding get_balance charge get_action_cost ◌-ℤ◌
balance_after_charge = refl

market-IsAudited : IsAudited (pos 1000) 10 market_db shop_wallet
unfolding ◌+ℤ◌
market-IsAudited = record { found = refl; chain = tt; latest = refl; amounts = omega arith }

run-IsAudited_example :
    (t : TokenWallet) × IsAudited
      (pos 1000)
      10
      (run 10 (Op.charged reply ∷ Op.credited recharge ∷ []) market).db
      t
    × (t.id ≡ 11)
run-IsAudited_example =
    run-IsAudited (pos 1000) 10 (Op.charged reply ∷ Op.credited recharge ∷ []) market shop_wallet
      market-IsAudited

passes : (pre_flight_check 10 "ai_reply" market).0 ≡ ok (pos 1000)
unfolding pre_flight_check get_balance get_action_cost
passes = refl

charge-pre_flight_check_example :
    (t' : TokenWallet) × (find_wallet 10
        (charge 10 reply (pre_flight_check 10 "ai_reply" market).1).1.db
      ≡ some t')
    × (t'.balance +ℤ pos (get_action_cost "ai_reply" market).0 ≡ pos 1000)
charge-pre_flight_check_example =
    charge-pre_flight_check 10 reply market {t = shop_wallet} {v = pos 1000} market-IsCoherent refl
      passes (omega arith) (omega arith)

abbrev balances : List ℤ
balances = pos 400 ∷ pos 90 ∷ pos 600 ∷ pos 0 ∷ pos 80 ∷ []

abbrev alerted : World
alerted = record {
  db = market_db;
  redis = record empty_redis { alert_sent = (10, AlertType.zero) ∷ [] };
}

abbrev in_grace_db : Db
in_grace_db = record market_db { bots = record shop_bot { status = BotStatus.grace } ∷ [] }
