-- ===== src/Agents/Unlock.antt =====
-- `unlock_agent` of app/api/agents.py.
use ethiogram.Base.{
  ℕ, ◌+◌, String, true, false, Option, none, some, ◌∷◌, modify_first, if◌then◌else◌,
}
use ethiogram.Base.Int.{pos, ◌+ℤ◌, ◌-ℤ◌, ltb_ℤ}
use ethiogram.Models.{
  ChildAgent, AgentTrial, AgentUnlock, TokenWallet, TokenEscrow, EscrowStatus, Config, Error,
  Settings,
}
use ethiogram.Request.{Action, pure, raise, gets, modify_db, ◌>>=◌, ◌>>◌}
use ethiogram.Metering.{owns_wallet, find_wallet}
use ethiogram.Agents.Access.{get_live_agent, assert_owns_business}
use ethiogram.Agents.Child.{DeployRequest, days, find_child, add_child, update_child}
use ethiogram.Agents.Trial.{tries}

-- The wallet must cover the price.
abbrev pub funded_wallet : ℕ → Option TokenWallet → Action TokenWallet
funded_wallet price none = raise (Error.insufficient_balance price (pos 0))
funded_wallet price (some wallet) =
    if ltb_ℤ wallet.balance (pos price)
    then raise (Error.insufficient_balance price wallet.balance)
    else pure wallet

abbrev pub into_escrow : ℕ → TokenWallet → TokenWallet
into_escrow price wallet = record wallet {
  balance = wallet.balance -ℤ pos price;
  escrow_balance = wallet.escrow_balance +ℤ pos price;
}

abbrev pub new_escrow : ℕ → ℕ → ℕ → ℕ → TokenEscrow
new_escrow id wallet_id price release_at = record {
  id = id;
  wallet_id = wallet_id;
  amount = price;
  release_at = release_at;
  status = EscrowStatus.holding;
  released_at = none;
  dispute_reason = none;
}

-- The wallet's row, and the new escrow; the result is the escrow's id.
abbrev pub hold : ℕ → ℕ → TokenWallet → ℕ → Action ℕ
hold business_id price wallet release_at = do
  id ← gets (λ w. w.db.next_id)
  modify_db (λ db. record db {
    next_id = id + 1;
    wallets = modify_first (owns_wallet business_id) (into_escrow price) db.wallets;
    escrows = new_escrow id wallet.id price release_at ∷ db.escrows;
  })
  pure id

abbrev new_unlock : ℕ → ℕ → ℕ → ℕ → ℕ → ℕ → AgentUnlock
new_unlock id agent_id business_id child_id price escrow_id = record {
  id = id;
  agent_id = agent_id;
  business_id = business_id;
  child_agent_id = some child_id;
  etg_paid = price;
  escrow_id = some escrow_id;
  is_refunded = false;
}

abbrev convert : ℕ → AgentTrial → AgentTrial
convert now trial = record trial { is_converted = true; converted_at = some now }

-- The unlock's row, and the trial that it converts, if there is one.
abbrev pub record_unlock : ℕ → ℕ → ℕ → ℕ → ℕ → ℕ → Action Unit
record_unlock agent_id business_id child_id price escrow_id now = modify_db (λ db. record db {
  next_id = db.next_id + 1;
  unlocks = new_unlock db.next_id agent_id business_id child_id price escrow_id ∷ db.unlocks;
  trials = modify_first (tries agent_id business_id) (convert now) db.trials;
})

pub record Unlocked : Type 0 where
  pub child_agent_id : ℕ
  pub etg_paid : ℕ
  pub escrow_release_at : ℕ

module _ (encrypt : Config → String) where
  abbrev pub unlock_child : ℕ → DeployRequest → Option ChildAgent → Action ℕ
  unlock_child agent_id body none = add_child encrypt agent_id body
  unlock_child agent_id body (some child) = update_child encrypt agent_id body child

  unfoldable pub unlock_agent : Settings → ℕ → DeployRequest → ℕ → ℕ → Action Unlocked
  unfolding get_live_agent assert_owns_business
  unlock_agent settings agent_id body user_id now = do
    agent ← get_live_agent agent_id
    assert_owns_business user_id body.business_id
    found ← gets (λ w. find_wallet body.business_id w.db)
    wallet ← funded_wallet agent.price_etg found
    let release_at = now + days settings.escrow_release_days
    escrow_id ← hold body.business_id agent.price_etg wallet release_at
    child ← gets (λ w. find_child agent_id body.business_id w.db)
    child_id ← unlock_child agent_id body child
    record_unlock agent_id body.business_id child_id agent.price_etg escrow_id now
    pure (record {
      child_agent_id = child_id;
      etg_paid = agent.price_etg;
      escrow_release_at = release_at;
    })
