-- ===== src/Metering/Grace.antt =====
-- `reactivate_grace_bots` of app/core/metering.py.
use ethiogram.Base.{
  ℕ, ◌+◌, ◌≡◌, refl, Bool, not, ◌&&◌, List, [], ◌∷◌, arith, keep, count_if, modify_all, nat_eq,
}
use ethiogram.Models.{Db, Bot, is_active}
use ethiogram.Metering.{in_grace, reactivate, reactivate_grace_bots}

abbrev pub is_active_of : ℕ → Bot → Bool
is_active_of b bot = nat_eq bot.business_id b && is_active bot.status

module _ (b : ℕ) where
  reactivate-counts :
      (bots : List Bot)
      → let bots' = modify_all (in_grace b) reactivate bots in
        (count_if (in_grace b) bots' ≡ 0)
        × (count_if (is_active_of b) bots'
            ≡ count_if (is_active_of b) bots + count_if (in_grace b) bots)
  reactivate-counts [] = (refl, refl)
  reactivate-counts (bot ∷ bots) = ground (arith, reactivate-counts bots)

  reactivate-keeps :
      (bots : List Bot)
      → keep (λ bot. not (nat_eq bot.business_id b)) (modify_all (in_grace b) reactivate bots)
        ≡ keep (λ bot. not (nat_eq bot.business_id b)) bots
  reactivate-keeps [] = refl
  reactivate-keeps (bot ∷ bots) = ground (arith, reactivate-keeps bots)

-- After the reactivation no bot of the business is in grace, its active bots have become more by
-- exactly the number returned, and the bots of other businesses are unchanged.
pub reactivate_grace_bots_lem :
    (b : ℕ) (db : Db)
    → let (count, db') = reactivate_grace_bots b db in
      (count_if (in_grace b) db'.bots ≡ 0)
      × (count_if (is_active_of b) db'.bots ≡ count_if (is_active_of b) db.bots + count)
      × (keep (λ bot. not (nat_eq bot.business_id b)) db'.bots
          ≡ keep (λ bot. not (nat_eq bot.business_id b)) db.bots)
unfolding reactivate_grace_bots
reactivate_grace_bots_lem b db =
    let (none_left, active) = reactivate-counts b db.bots in
    (none_left, active, reactivate-keeps b db.bots)
