-- ===== src/Tests/Market.antt =====
-- `unlock_agent` of app/api/agents.py on the sample market.
use ethiogram.Base.{◌+◌, ◌≡◌, refl, ℕ, [], ◌∷◌, arith}
use ethiogram.Base.Int.{pos, ◌+ℤ◌}
use ethiogram.Models.{World, default_settings, empty_redis}
use ethiogram.Request.{ok}
use ethiogram.Metering.Cache.{IsCoherent}
use ethiogram.Metering.Ledger.{IsAudited}
use ethiogram.Agents.{unlock_agent, into_escrow, days}
use ethiogram.Agents.Payment.{IsUnlockable, IsPaid, unlock_agent_succeeds}
use ethiogram.Escrow.Backing.{IsBacked, unlock_agent-IsBacked}
use ethiogram.Tests.Samples.{market, market_db, shop_wallet, concierge, plain, deploy}

market-IsUnlockable : IsUnlockable 5 10 1 market_db concierge shop_wallet
market-IsUnlockable = record {
  agent = refl;
  live = refl;
  owned = refl;
  wallet = refl;
  covered = omega arith;
}

unlock_agent_succeeds_example :
    (child_id : ℕ) × (w' : World) × (unlock_agent plain default_settings 5 deploy 1 50 market ≡ (
      ok (record { child_agent_id = child_id; etg_paid = 700; escrow_release_at = 50 + days 7 }),
      w',
    ))
    × IsPaid 10 700 (50 + days 7) market w' shop_wallet
unlock_agent_succeeds_example =
    unlock_agent_succeeds plain default_settings 5 deploy 1 50 market market-IsUnlockable

abbrev cached : World
cached = record { db = market_db; redis = record empty_redis { balances = (10, pos 1000) ∷ [] } }

cached-IsCoherent : IsCoherent cached
cached-IsCoherent b v e = ground arith

cached-IsAudited : IsAudited (pos 1000) 10 market_db shop_wallet
unfolding ◌+ℤ◌
cached-IsAudited = record { found = refl; chain = tt; latest = refl; amounts = omega arith }

market-IsBacked : IsBacked 11 market_db shop_wallet
market-IsBacked = record { found = refl; backed = refl }

unlock_agent-IsBacked_example :
    IsBacked 11
      (unlock_agent plain default_settings 5 deploy 1 50 market).1.db
      (into_escrow 700 shop_wallet)
unlock_agent-IsBacked_example =
    unlock_agent-IsBacked plain default_settings 5 deploy 1 50 market market-IsUnlockable
      market-IsBacked
