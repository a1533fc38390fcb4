-- ===== src/Metering/Pricing.antt =====
-- The costs of actions in app/core/metering.py, and the check that stands before an action.
use ethiogram.Base.{
  ℕ, String, ◌&&◌, Option, none, some, [], ◌∷◌, Dict, lookup, insert, find_first, ◌==◌, eq_string,
  if◌then◌else◌,
}
use ethiogram.Base.Int.{ℤ, pos, ltb_ℤ}
use ethiogram.Models.{World, Db, UsagePricing, Error}
use ethiogram.Request.{Result, ok, err}
use ethiogram.Metering.Balance.{get_balance}

-- `_DEFAULT_COSTS`
abbrev default_costs : Dict String ℕ
default_costs =
    ("ai_reply", 2)
    ∷ ("rag_search", 1)
    ∷ ("ocr_page", 3)
    ∷ ("embedding", 1)
    ∷ ("booking", 2)
    ∷ ("order_assist", 2)
    ∷ ("image_analysis", 4)
    ∷ []

-- `row is not None ? row : _DEFAULT_COSTS.get(action_type, 1)`
abbrev or_default : String → Option UsagePricing → ℕ
or_default action_type (some row) = row.etg_cost
or_default action_type none = elim (lookup action_type default_costs) [ some c ↦ c | none ↦ 1 ]

abbrev pub db_cost : String → Db → ℕ
db_cost action_type db =
    or_default action_type
      (find_first (λ (p : UsagePricing). p.action_type == action_type && p.is_active) db.pricing)

unfoldable pub get_action_cost : String → World → ℕ × World
get_action_cost action_type w = elim (lookup action_type w.redis.prices) [
  | some cached ↦ (cached, w)
  | none ↦
      (let cost = db_cost action_type w.db in
        (
          cost,
          record w { redis = record w.redis { prices = insert action_type cost w.redis.prices } },
        ))
]

unfoldable pub invalidate_pricing_cache : World → World
invalidate_pricing_cache w = record w { redis = record w.redis { prices = [] } }

unfoldable pub pre_flight_check : ℕ → String → World → Result ℤ × World
pre_flight_check business_id action_type w =
    let (balance, w₁) = get_balance business_id w in
    let (cost, w₂) = get_action_cost action_type w₁ in
    (
      if ltb_ℤ balance (pos cost)
          then err (Error.insufficient_balance cost balance)
          else ok balance,
      w₂,
    )
