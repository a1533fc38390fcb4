-- ===== src/Storefront/Generation.antt =====
-- `generate_storefront` of app/api/businesses.py, with its limit and its charge.
use ethiogram.Base.{
  ℕ, ◌+◌, String, Bool, Option, none, some, ◌∷◌, lookup, insert, modify_first, ltb, eq_nat,
  if◌then◌else◌,
}
use ethiogram.Base.Int.{pos, ◌+ℤ◌, ◌-ℤ◌, leb_ℤ}
use ethiogram.Models.{World, TokenWallet, UsageEvent, Error}
use ethiogram.Request.{Action, ok, raise_if, ◌>>◌}
use ethiogram.Metering.{find_wallet, owns_wallet}
use ethiogram.Messages.{get_owned_business}

abbrev pub generations_per_hour : ℕ
generations_per_hour = 15

abbrev pub generation_cost : ℕ
generation_cost = 5

-- `INCR` of a key that is absent starts at 0. Redis drops the key an hour after the first request.
abbrev pub generations : ℕ → World → ℕ
generations business_id w = elim (lookup business_id w.redis.generations) [
  | none ↦ 0
  | some count ↦ count
]

abbrev pub count_generation : ℕ → World → World
count_generation business_id w = record w {
  redis = record w.redis {
    generations = insert business_id (generations business_id w + 1) w.redis.generations;
  };
}

abbrev pub enforce_generation_rate_limit : ℕ → Action Unit
enforce_generation_rate_limit business_id w =
    raise_if (ltb generations_per_hour (generations business_id w + 1)) (Error.rate_limited 3600)
      (count_generation business_id w)

abbrev pub take_cost : TokenWallet → TokenWallet
take_cost wallet = record wallet {
  balance = wallet.balance -ℤ pos generation_cost;
  lifetime_spent = wallet.lifetime_spent +ℤ pos generation_cost;
}

abbrev pub generation_event : ℕ → (model_id : Option String) → (charged : ℕ) → UsageEvent
generation_event business_id model_id charged = record {
  business_id = business_id;
  bot_id = none;
  conversation_id = none;
  action_type = "storefront_generation";
  model_id = model_id;
  model_tier = none;
  input_tokens = 0;
  output_tokens = 0;
  etg_charged = charged;
  payer = some "business";
}

abbrev pub record_generation : ℕ → (model_id : Option String) → (charged : ℕ) → World → World
record_generation business_id model_id charged w = record w {
  db = record w.db {
    usage_events = generation_event business_id model_id charged ∷ w.db.usage_events;
  };
}

abbrev pub pay_generation : ℕ → World → World
pay_generation business_id w = record w {
  db = record w.db { wallets = modify_first (owns_wallet business_id) take_cost w.db.wallets };
}

abbrev pub charge_wallet_for :
    ℕ → (model_id : Option String) → Option TokenWallet → World → ℕ × World
charge_wallet_for business_id model_id none w = (0, record_generation business_id model_id 0 w)
charge_wallet_for business_id model_id (some wallet) w =
    if leb_ℤ (pos generation_cost) wallet.balance
    then (
      generation_cost,
      record_generation business_id model_id generation_cost (pay_generation business_id w),
    )
    else (0, record_generation business_id model_id 0 w)

unfoldable pub charge_generation : ℕ → (model_id : Option String) → World → ℕ × World
charge_generation business_id model_id w =
    charge_wallet_for business_id model_id (find_wallet business_id w.db) w

-- What the model's part returns: whether its source is "ai", and the model. The texts and the layout
-- that it suggests are left out.
pub record Generated : Type 0 where
  pub by_ai : Bool
  pub model : Option String

unfoldable pub meter : ℕ → Generated → Action ℕ
unfolding charge_generation
meter business_id result w =
    if result.by_ai
    then (let (charged, w') = charge_generation business_id result.model w in (ok charged, w'))
    else (ok 0, w)

-- `generate` stands for app/services/storefront_ai.py. The result is the amount that is charged.
unfoldable pub generate_storefront :
    (generate : World → Generated) → (business_id user_id : ℕ) → Action ℕ
unfolding meter
generate_storefront generate business_id user_id = do
  get_owned_business business_id user_id
  enforce_generation_rate_limit business_id
  (λ w. meter business_id (generate w) w)
