-- ===== src/Tests/Escrows.antt =====
-- workers/escrow_release.py on the sample market with one escrow.
use ethiogram.Base.{◌≡◌, refl, true, false, none, some, [], ◌∷◌, arith}
use ethiogram.Base.Int.{pos, ◌+ℤ◌, ◌-ℤ◌}
use ethiogram.Models.{World, Db, TokenWallet, TokenEscrow, EscrowStatus, AgentUnlock, empty_redis}
use ethiogram.Request.{ok}
use ethiogram.Escrow.{
  creator_share, find_escrow, wallet_by_id, release_escrow, released, settle, settle_buyer,
  find_payee,
}
use ethiogram.Escrow.Outcome.{IsReleasable, release_escrow_once}
use ethiogram.Escrow.Conservation.{circulation, paid, settle-circulation}
use ethiogram.Escrow.Backing.{IsBacked, settle-IsBacked}
use ethiogram.Tests.Samples.{market_db, shop_wallet, wallet_of}

creator_share_90 : creator_share 90 ≡ 62
unfolding creator_share
creator_share_90 = refl

creator_share_700 : creator_share 700 ≡ 489
unfolding creator_share
creator_share_700 = refl

abbrev escrow : TokenEscrow
escrow = record {
  id = 30;
  wallet_id = 11;
  amount = 700;
  release_at = 100;
  status = EscrowStatus.holding;
  released_at = none;
  dispute_reason = none;
}

abbrev buyer_wallet : TokenWallet
buyer_wallet = record shop_wallet { balance = pos 300; escrow_balance = pos 700 }

abbrev unlock : AgentUnlock
unlock = record {
  id = 31;
  agent_id = 5;
  business_id = 10;
  child_agent_id = none;
  etg_paid = 700;
  escrow_id = some 30;
  is_refunded = false;
}

abbrev held_db : Db
held_db = record market_db {
  wallets = buyer_wallet ∷ wallet_of 21 20 50 ∷ [];
  escrows = escrow ∷ [];
  unlocks = unlock ∷ [];
}

abbrev held_world : World
held_world = record { db = held_db; redis = empty_redis }

held-IsReleasable : IsReleasable 30 held_db escrow
held-IsReleasable = record { found = refl; holding = refl; undisputed = refl; single = omega arith }

release_escrow_once_example :
    let (r, w') = release_escrow 30 150 held_world in
    (r ≡ ok true)
    × (find_escrow 30 w'.db ≡ some (released 150 escrow))
    × (release_escrow 30 160 w' ≡ (ok false, w'))
release_escrow_once_example = release_escrow_once 30 150 160 held_world held-IsReleasable

settle-circulation_example :
    circulation (settle escrow (some unlock) 150 held_db) +ℤ pos 700
    ≡ circulation held_db
      +ℤ pos (paid (creator_share 700) (find_payee (some unlock) (settle_buyer escrow held_db)))
settle-circulation_example =
    settle-circulation escrow (some unlock) 150 held_db {t = buyer_wallet} refl (omega arith)

held-IsBacked : IsBacked 11 held_db buyer_wallet
held-IsBacked = record { found = refl; backed = refl }

settle-IsBacked_example :
    (t' : TokenWallet) × IsBacked 11 (settle escrow (some unlock) 150 held_db) t'
    × (t'.escrow_balance +ℤ pos 700 ≡ pos 700)
settle-IsBacked_example =
    settle-IsBacked escrow 30 (some unlock) 150 held_db refl refl held-IsBacked

settled_wallet :
    wallet_by_id 21 (settle escrow (some unlock) 150 held_db)
    ≡ some (record (wallet_of 21 20 539) { lifetime_recharged = pos 539 })
unfolding settle find_payee creator_share ◌+ℤ◌ ◌-ℤ◌
settled_wallet = refl
