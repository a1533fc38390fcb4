-- ===== src/Storefront/Limits.antt =====
-- The hourly limit of `generate_storefront` in app/api/businesses.py.
use ethiogram.Base.{
  ℕ, String, ◌<◌, ◌⊎◌, ◌+◌, ◌-◌, ◌≤◌, ◌≡◌, refl, inl, inr, Bool-cases, List, [], ◌∷◌, arith,
  lookup-insert_self, eq_nat, ltb, Option-cases, Option,
}
use ethiogram.Base.Int.{pos, leb_ℤ}
use ethiogram.Models.{World, Db}
use ethiogram.Request.{Result, ok, err}
use ethiogram.Agents.{owns_business}
use ethiogram.Metering.{find_wallet}
use ethiogram.Storefront.{
  Generated, generations_per_hour, generations, count_generation, charge_generation, meter,
  generate_storefront,
}

abbrev succeeded : Result ℕ → ℕ
succeeded (ok charged) = 1
succeeded (err e) = 0

charge_generation-redis :
    (b : ℕ) (model_id : Option String) (w : World)
    → (charge_generation b model_id w).1.redis ≡ w.redis
unfolding charge_generation
charge_generation-redis b model_id w = elim (Option-cases (find_wallet b w.db)) [
  | inl missing ↦ rw missing refl
  | inr (t, found) ↦ elim (Bool-cases (leb_ℤ (pos 5) t.balance)) [
    | inl funded ↦ rw found (rw funded refl)
    | inr poor ↦ rw found (rw poor refl)
  ]
]

count_generation-generations :
    (b : ℕ) (w : World) → generations b (count_generation b w) ≡ generations b w + 1
count_generation-generations b w =
    rw (generations, lookup-insert_self b (generations b w + 1) w.redis.generations) refl

-- A request that fails counts, or leaves the count as it is; one that succeeds counts, below the limit.
abbrev Counts : ℕ → World → Result ℕ × World → Type 0
Counts b w (r, w') =
    ((succeeded r ≡ 0) × (generations b w ≤ generations b w'))
    ⊎ ((succeeded r ≡ 1)
        × (generations b w < generations_per_hour)
        × (generations b w' ≡ generations b w + 1))

module _ (generate : World → Generated) (business_id user_id : ℕ) where
  meter-Counts :
      (w : World) (g : Generated)
      → generations business_id w < generations_per_hour
      → Counts business_id w (meter business_id g (count_generation business_id w))
  unfolding meter
  meter-Counts w g below = elim (Bool-cases g.by_ai) [
    | inr fallback ↦ rw fallback (inr (refl, below, count_generation-generations business_id w))
    | inl ai ↦
        let counted = count_generation business_id w in
        let same = charge_generation-redis business_id g.model counted in
        rw ai
          (inr (refl, below, rw (generations, same) (count_generation-generations business_id w)))
  ]

  generate_storefront-Counts :
      (w : World) → Counts business_id w (generate_storefront generate business_id user_id w)
  unfolding generate_storefront
  generate_storefront-Counts w = elim (Bool-cases (owns_business user_id business_id w.db)) [
    | inr other ↦ rw other (inl (refl, omega arith))
    | inl owned ↦ (elim (Bool-cases (ltb generations_per_hour (generations business_id w + 1))) [
      | inl full ↦
          rw (owned, full) (inl (refl, omega (arith, count_generation-generations business_id w)))
      | inr free ↦
          rw (owned, free)
            (meter-Counts w (generate (count_generation business_id w)) (ground (arith, free)))
    ])
  ]

  -- The requests that succeed, of a sequence. Before each, the database may become any other.
  pub successes : List Db → World → ℕ
  successes [] w = 0
  successes (db ∷ dbs) w =
      let (r, w') = generate_storefront generate business_id user_id (record w { db = db }) in
      succeeded r + successes dbs w'

  -- However often an owner asks for a generation for a business, and whatever happens to the database
  -- in between, no more requests succeed than 15 less those that were counted before, while Redis
  -- keeps the count.
  pub successes_le :
      (dbs : List Db) (w : World)
      → successes dbs w ≤ generations_per_hour - generations business_id w
  unfolding successes
  successes_le [] w = omega arith
  successes_le (db ∷ dbs) w =
      let (r, w') = generate_storefront generate business_id user_id (record w { db = db }) in
      let later = successes_le dbs w' in
      elim (generate_storefront-Counts (record w { db = db })) [
        | inl (failed, more) ↦ omega (arith, failed, more, later)
        | inr (done, below, more) ↦ omega (arith, done, below, more, later)
      ]
