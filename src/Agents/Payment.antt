-- ===== src/Agents/Payment.antt =====
-- What `unlock_agent` of app/api/agents.py does to the buyer's wallet.
use ethiogram.Base.{
  ℕ, ◌+◌, ◌≡◌, ◌⊎◌, refl, String, true, false, Option, none, some, ◌∷◌, inl, inr, arith,
  modify_first, Option-cases, Bool-cases,
}
use ethiogram.Base.Int.{ℤ, pos, ◌≤ℤ◌, ltb_ℤ}
use ethiogram.Models.{World, Db, Agent, TokenWallet, ChildAgent, Config, Error, Settings, is_live}
use ethiogram.Request.{ok, err}
use ethiogram.Metering.{owns_wallet, find_wallet, db_balance}
use ethiogram.Agents.{
  DeployRequest, days, find_agent, owns_business, find_child, unlock_child, into_escrow, new_escrow,
  hold, record_unlock, unlock_agent,
}

-- What an unlock asks for.
pub record IsUnlockable (agent_id b user_id : ℕ) (db : Db) (a : Agent) (t : TokenWallet)
    : Type 0 where
  pub agent : find_agent agent_id db ≡ some a
  pub live : is_live a.status ≡ true
  pub owned : owns_business user_id b db ≡ true
  pub wallet : find_wallet b db ≡ some t
  pub covered : pos a.price_etg ≤ℤ t.balance

-- What it leaves in the world besides the child agent and the rows of unlocks and trials.
pub record IsPaid (b price release_at : ℕ) (w w' : World) (t : TokenWallet) : Type 0 where
  pub wallets : w'.db.wallets ≡ modify_first (owns_wallet b) (into_escrow price) w.db.wallets
  pub escrows : w'.db.escrows ≡ new_escrow w.db.next_id t.id price release_at ∷ w.db.escrows
  pub transactions : w'.db.transactions ≡ w.db.transactions
  pub redis : w'.redis ≡ w.redis

covered_test : (a : ℤ) (n : ℕ) → pos n ≤ℤ a → ltb_ℤ a (pos n) ≡ false
covered_test a n h = ground arith

module _ (encrypt : Config → String) where
  unlock_child_total :
      (agent_id : ℕ) (body : DeployRequest) (child : Option ChildAgent) (w : World)
      → (id : ℕ) × (w' : World) × (unlock_child encrypt agent_id body child w ≡ (ok id, w'))
        × (w'.db.wallets ≡ w.db.wallets)
        × (w'.db.escrows ≡ w.db.escrows)
        × (w'.db.transactions ≡ w.db.transactions)
        × (w'.redis ≡ w.redis)
  unlock_child_total agent_id body none w = (_, _, refl, refl, refl, refl, refl)
  unlock_child_total agent_id body (some child) w = (_, _, refl, refl, refl, refl, refl)

  -- An unlock of a live agent for an owned business in good standing, whose wallet covers the
  -- price, succeeds and answers with the child agent, the price and the time of release. It moves
  -- the price from the wallet's balance to its escrow balance, makes one escrow with that price and
  -- time, and writes no ledger row and no cache entry.
  pub unlock_agent_succeeds :
      (settings : Settings) (agent_id : ℕ) (body : DeployRequest) (user_id now : ℕ) (w : World)
      {a : Agent} {t : TokenWallet}
      → IsUnlockable agent_id body.business_id user_id w.db a t
      → let release_at = now + days settings.escrow_release_days in
        (child_id : ℕ) × (w' : World) × (unlock_agent encrypt settings agent_id body user_id now w
          ≡ (
            ok (record {
              child_agent_id = child_id;
              etg_paid = a.price_etg;
              escrow_release_at = release_at;
            }),
            w',
          ))
        × IsPaid body.business_id a.price_etg release_at w w' t
  unfolding unlock_agent
  unlock_agent_succeeds settings agent_id body user_id now w {a} {t} u =
      let price : ℕ = a.price_etg in
      let b : ℕ = body.business_id in
      let release_at : ℕ = now + days settings.escrow_release_days in
      let w₁ : World = (hold b price t release_at w).1 in
      let (id, w₂, done, wallets, escrows, transactions, redis) =
        unlock_child_total agent_id body (find_child agent_id b w₁.db) w₁ in
      let w₃ : World = (record_unlock agent_id b id price w.db.next_id now w₂).1 in
      rw (u.agent) (
        rw (u.live) (
          rw (u.owned) (
            rw (u.wallet) (
              rw (covered_test t.balance price u.covered) (
                id,
                w₃,
                rw done,
                record {
                  wallets = wallets;
                  escrows = escrows;
                  transactions = transactions;
                  redis = redis;
                },
              )))))

-- Which guard refuses, and with what: in each case the world is as it was.
pub data Refusal (agent_id b user_id : ℕ) (db : Db) : Error → Type 0 where
  no_agent : find_agent agent_id db ≡ none → Refusal agent_id b user_id db (Error.not_found "Agent")
  not_live :
      (a : Agent)
      → find_agent agent_id db ≡ some a
      → is_live a.status ≡ false
      → Refusal agent_id b user_id db Error.agent_not_live
  not_owned :
      owns_business user_id b db ≡ false
      → Refusal agent_id b user_id db (Error.not_found "Business")
  not_covered :
      (a : Agent)
      → find_agent agent_id db ≡ some a
      → ((t : TokenWallet) → find_wallet b db ≡ some t → ltb_ℤ t.balance (pos a.price_etg) ≡ true)
      → Refusal agent_id b user_id db (Error.insufficient_balance a.price_etg (db_balance b db))

module _ (encrypt : Config → String) (settings : Settings) (agent_id : ℕ) (body : DeployRequest)
    (user_id now : ℕ) (w : World) where
  abbrev Decided : Type 0
  Decided =
      ((a : Agent) × (t : TokenWallet) × IsUnlockable agent_id body.business_id user_id w.db a t)
      ⊎ ((e : Error) × Refusal agent_id body.business_id user_id w.db e
          × (unlock_agent encrypt settings agent_id body user_id now w ≡ (err e, w)))

  wallet_decides :
      (a : Agent)
      → find_agent agent_id w.db ≡ some a
      → is_live a.status ≡ true
      → owns_business user_id body.business_id w.db ≡ true
      → Decided
  unfolding unlock_agent
  wallet_decides a agent live owned = elim (Option-cases (find_wallet body.business_id w.db)) [
    | inl missing ↦ inr (
      Error.insufficient_balance a.price_etg (db_balance body.business_id w.db),
      not_covered a agent (λ t e. absurd (cc)),
      rw agent (rw live (rw owned (rw missing))),
    )
    | inr (t, wallet) ↦ elim (Bool-cases (ltb_ℤ t.balance (pos a.price_etg))) [
      | inl short ↦ inr (
        Error.insufficient_balance a.price_etg (db_balance body.business_id w.db),
        not_covered a agent (λ t' e. ground arith),
        rw agent (rw live (rw owned (rw wallet (rw short)))),
      )
      | inr enough ↦ inl (
        a,
        t,
        record {
          agent = agent;
          live = live;
          owned = owned;
          wallet = wallet;
          covered = ground arith;
        },
      )
    ]
  ]

  -- An unlock passes its guards (a live agent, an owned business in good standing, a wallet that
  -- covers the price), or is refused by the first guard that fails, with the error of that guard and
  -- with the world as it was.
  pub unlock_agent_decides : Decided
  unfolding unlock_agent
  unlock_agent_decides = elim (Option-cases (find_agent agent_id w.db)) [
    | inl missing ↦ inr (Error.not_found "Agent", no_agent missing, rw missing)
    | inr (a, agent) ↦ elim (Bool-cases (is_live a.status)) [
      | inr dead ↦ inr (Error.agent_not_live, not_live a agent dead, rw agent (rw dead))
      | inl live ↦ elim (Bool-cases (owns_business user_id body.business_id w.db)) [
        | inr foreign ↦
            inr (Error.not_found "Business", not_owned foreign, rw agent (rw live (rw foreign)))
        | inl owned ↦ wallet_decides a agent live owned
      ]
    ]
  ]
