-- ===== src/Agents/Trial.antt =====
-- `start_trial` of app/api/agents.py.
use ethiogram.Base.{
  ℕ, ◌+◌, String, Bool, false, ◌&&◌, Option, none, some, ◌∷◌, find_first, nat_eq, leb, is_some,
}
use ethiogram.Models.{Db, ChildAgent, AgentTrial, Config, Error, Settings}
use ethiogram.Request.{Action, pure, gets, modify_db, raise_if, ◌>>=◌, ◌>>◌}
use ethiogram.Agents.Access.{get_live_agent, assert_owns_business}
use ethiogram.Agents.Child.{DeployRequest, days, find_child, deployed, add_child, update_child}

abbrev pub tries : ℕ → ℕ → AgentTrial → Bool
tries agent_id business_id t = nat_eq t.agent_id agent_id && nat_eq t.business_id business_id

abbrev pub find_trial : ℕ → ℕ → Db → Option AgentTrial
find_trial agent_id business_id db = find_first (tries agent_id business_id) db.trials

abbrev pub new_trial : ℕ → ℕ → ℕ → ℕ → ℕ → AgentTrial
new_trial id agent_id business_id child_id expires_at = record {
  id = id;
  agent_id = agent_id;
  business_id = business_id;
  child_agent_id = some child_id;
  expires_at = expires_at;
  is_converted = false;
  converted_at = none;
  warning_sent_at = none;
  critical_sent_at = none;
  expired_notified_at = none;
}

module _ (encrypt : Config → String) where
  -- The cap holds where a trial makes a new child agent.
  abbrev pub trial_child : Settings → ℕ → DeployRequest → Option ChildAgent → Action ℕ
  trial_child settings agent_id body none = do
    count ← gets (λ w. deployed body.business_id w.db)
    raise_if (leb settings.max_child_agents_per_bot count)
        (Error.validation_error "Agent limit reached")
    add_child encrypt agent_id body
  trial_child settings agent_id body (some child) = update_child encrypt agent_id body child

  -- The result is the child agent's id.
  unfoldable pub start_trial : Settings → ℕ → DeployRequest → ℕ → ℕ → Action ℕ
  unfolding get_live_agent assert_owns_business
  start_trial settings agent_id body user_id now = do
    agent ← get_live_agent agent_id
    assert_owns_business user_id body.business_id
    existing ← gets (λ w. find_trial agent_id body.business_id w.db)
    raise_if (is_some existing) (Error.already_exists "AgentTrial")
    child ← gets (λ w. find_child agent_id body.business_id w.db)
    child_id ← trial_child settings agent_id body child
    modify_db (λ db. record db {
      next_id = db.next_id + 1;
      trials =
          new_trial db.next_id agent_id body.business_id child_id
            (now + days settings.trial_duration_days)
          ∷ db.trials;
    })
    pure child_id
