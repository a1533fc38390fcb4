-- ===== src/Messages/Prices.antt =====
-- The cached price of a model in app/api/webhooks.py, and the cost of a reply.
use ethiogram.Base.{
  ℕ, ◌+◌, ◌*◌, ◌≤◌, ◌<◌, ◌≡◌, refl, inl, inr, String, true, max, false, not, Option, none, some,
  List, [], ◌∷◌, arith, lookup, find_first, Bool-cases, Option-cases, ◌==◌, eq_string,
  lookup-delete_ne, lookup-delete_self, find_first-modify_ne,
}
use ethiogram.Base.Texts.{Text}
use ethiogram.Models.{World, AiModel}
use text.Mathlib.TextEquality.{eq_iff}
use ethiogram.Messages.{
  cache_price, write_price, is_valid_repricing, price_text, parse_price, db_price, model_price,
  Repricing, set_model_pricing, is_model, reprice, tokens_cost, reply_cost, is_free, ceil_div,
}
use ethiogram.Messages.PriceText.{parse_price-price_text}

-- Every cached price is the price that the database holds for its model.
abbrev pub IsPriced : World → Type 0
IsPriced w =
    (m : String) (t : Text)
    → lookup m w.redis.model_prices ≡ some t
    → parse_price t ≡ some (db_price m w.db)

some_inj : {a b : Text} → some a ≡ some b → a ≡ b
some_inj e = cc

ne_some : {o : Option Text} {t : Text} → o ≡ none → o ≡ some t → ⊥
ne_some missing hit = cc

other_model :
    (r : Repricing) (m : String)
    → (r.model_id == m) ≡ false
    → (y : AiModel) → is_model r.model_id y ≡ true
    → (is_model m y ≡ false) × (is_model m (reprice r y) ≡ false)
other_model r m other y is =
    ground (arith, eq_iff y.model_id r.model_id, eq_iff y.model_id m, eq_iff r.model_id m)

-- What may happen between two replies: a price is read, and an admin sets one.
pub data PriceOp : Type 0 where
  read : String → PriceOp
  set_price : ℕ → Repricing → PriceOp

unfoldable pub run_price : PriceOp → World → World
run_price (PriceOp.read m) w = (model_price m w).1
run_price (PriceOp.set_price admin_id r) w = (set_model_pricing admin_id r w).1

unfoldable pub run_prices : List PriceOp → World → World
run_prices [] w = w
run_prices (op ∷ ops) w = run_prices ops (run_price op w)

cached-IsPriced :
    (m : String) (w : World) → IsPriced w → IsPriced (cache_price m (db_price m w.db) w)
cached-IsPriced m w h m' t e = elim (Bool-cases (m == m')) [
  | inl same ↦
      (let same_model : m ≡ m' = (eq_iff m m').0 same in
        let written : price_text (db_price m w.db) ≡ t = some_inj (rw same at e) in
        rw (← written) (rw (← same_model) (parse_price-price_text (db_price m w.db))))
  | inr other ↦ h m' t (rw other at e)
]

model_price-cases :
    (m : String) (w : World)
    → IsPriced w
    → (m == "") ≡ false
    → ((model_price m w).0 ≡ db_price m w.db) × IsPriced (model_price m w).1
unfolding model_price
model_price-cases m w h named = elim (Option-cases (lookup m w.redis.model_prices)) [
  | inl miss ↦ rw named (rw miss (refl, cached-IsPriced m w h))
  | inr (t, hit) ↦ rw named (rw hit (rw (h m t hit) (refl, h)))
]

model_price-IsPriced : (m : String) (w : World) → IsPriced w → IsPriced (model_price m w).1
unfolding model_price
model_price-IsPriced m w h = elim (Bool-cases (m == "")) [
  | inl unnamed ↦ rw unnamed h
  | inr named ↦ (model_price-cases m w h named).1
]

write_price-IsPriced :
    (admin_id : ℕ) (r : Repricing) (w : World) → IsPriced w → IsPriced (write_price admin_id r w)
write_price-IsPriced admin_id r w h m t e = elim (Bool-cases (r.model_id == m)) [
  | inl same ↦
      (let same_model : r.model_id ≡ m = (eq_iff r.model_id m).0 same in
        absurd (ne_some (lookup-delete_self m w.redis.model_prices) (rw same_model at e)))
  | inr other ↦
      (let old : parse_price t ≡ some (db_price m w.db) =
          h m t (rw (lookup-delete_ne r.model_id m w.redis.model_prices other) at e) in
        rw
          (find_first-modify_ne (is_model r.model_id) (is_model m) (reprice r) w.db.ai_models
            (other_model r m other))
          old)
]

set_model_pricing-IsPriced :
    (admin_id : ℕ) (r : Repricing) (w : World)
    → IsPriced w
    → IsPriced (set_model_pricing admin_id r w).1
unfolding set_model_pricing
set_model_pricing-IsPriced admin_id r w h = elim (Bool-cases (not (is_valid_repricing r))) [
  | inl refused ↦ rw refused h
  | inr valid ↦ elim (Option-cases (find_first (is_model r.model_id) w.db.ai_models)) [
    | inl missing ↦ rw valid (rw missing h)
    | inr (m, found) ↦ rw valid (rw found (write_price-IsPriced admin_id r w h))
  ]
]

run_prices-IsPriced : (ops : List PriceOp) (w : World) → IsPriced w → IsPriced (run_prices ops w)
unfolding run_prices run_price
run_prices-IsPriced [] w h = h
run_prices-IsPriced (PriceOp.read m ∷ ops) w h =
    run_prices-IsPriced ops (model_price m w).1 (model_price-IsPriced m w h)
run_prices-IsPriced (PriceOp.set_price admin_id r ∷ ops) w h =
    run_prices-IsPriced ops (set_model_pricing admin_id r w).1
      (set_model_pricing-IsPriced admin_id r w h)

-- From a world whose cached prices are the database's, and after any sequence of readings and of
-- prices set by an admin, the price of a model that has an id is the one that the database holds for
-- it (1 and 2 where it holds none), whether or not the cache is hit.
pub model_price-eq_db_price :
    (ops : List PriceOp) (m : String) (w : World)
    → IsPriced w
    → (m == "") ≡ false
    → let w' = run_prices ops w in (model_price m w').0 ≡ db_price m w'.db
model_price-eq_db_price ops m w h named =
    (model_price-cases m (run_prices ops w) (run_prices-IsPriced ops w h) named).0

tokens_cost_bounds :
    (i o : ℕ) (price : ℕ × ℕ)
    → let used = i * price.0 + o * price.1 in
      (1 ≤ tokens_cost i o price)
      × (used ≤ 1000 * tokens_cost i o price)
      × (1000 * tokens_cost i o price < used + 2000)
tokens_cost_bounds i o (p, q) = rounds (i * p) (o * q)
  where
    rounds :
        (a b : ℕ)
        → let cost = max 1 (ceil_div a 1000 + ceil_div b 1000) in
          (1 ≤ cost) × (a + b ≤ 1000 * cost) × (1000 * cost < a + b + 2000)
    rounds a b = omega arith

-- Where the cached prices are the database's, a reply of a model that has an id and is not free costs
-- at least 1, at least the price of its tokens by the database, and less than 2 more than that; a
-- reply of a free model costs nothing.
pub reply_cost_bounds :
    (m : String) (i o : ℕ) (w : World)
    → IsPriced w
    → (m == "") ≡ false
    → let cost = (reply_cost m i o w).0 in
      let used = i * (db_price m w.db).0 + o * (db_price m w.db).1 in
      (is_free m ≡ true → cost ≡ 0)
      × (is_free m ≡ false → (1 ≤ cost) × (used ≤ 1000 * cost) × (1000 * cost < used + 2000))
unfolding reply_cost
reply_cost_bounds m i o w h named = (
  λ free. rw free refl,
  λ paid. rw paid (rw (model_price-cases m w h named).0 (tokens_cost_bounds i o (db_price m w.db))),
)
