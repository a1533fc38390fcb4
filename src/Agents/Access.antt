-- ===== src/Agents/Access.antt =====
-- The guards of app/api/agents.py: a live agent, an owned business, an owned child agent.
use ethiogram.Base.{ℕ, Bool, not, ◌&&◌, Option, find_first, nat_eq, is_some}
use ethiogram.Models.{Db, Agent, is_live, Business, ChildAgent, Error}
use ethiogram.Request.{Action, pure, gets, or_raise, raise_if, ◌>>=◌, ◌>>◌}

abbrev pub find_agent : ℕ → Db → Option Agent
find_agent id db = find_first (λ (a : Agent). nat_eq a.id id) db.agents

unfoldable pub get_live_agent : ℕ → Action Agent
get_live_agent id = do
  found ← gets (λ w. find_agent id w.db)
  agent ← or_raise found (Error.not_found "Agent")
  raise_if (not (is_live agent.status)) Error.agent_not_live
  pure agent

-- Not suspended and not deleted, and the user's own.
abbrev pub owns_business : ℕ → ℕ → Db → Bool
owns_business user_id business_id db = is_some (
    find_first
      (λ (b : Business).
        nat_eq b.id business_id
        && nat_eq b.owner_id user_id
        && not b.is_suspended
        && not (is_some b.deleted_at))
      db.businesses)

unfoldable pub assert_owns_business : ℕ → ℕ → Action Unit
assert_owns_business user_id business_id = do
  owned ← gets (λ w. owns_business user_id business_id w.db)
  raise_if (not owned) (Error.not_found "Business")

-- The join asks for the owner alone: a suspended business keeps its child agents in reach.
abbrev is_owner : ℕ → ℕ → Db → Bool
is_owner user_id business_id db = is_some (
    find_first (λ (b : Business). nat_eq b.id business_id && nat_eq b.owner_id user_id)
      db.businesses)

unfoldable pub get_owned_child_agent : ℕ → ℕ → Action ChildAgent
get_owned_child_agent child_agent_id user_id = do
  found ← gets (λ w.
      find_first
        (λ (c : ChildAgent). nat_eq c.id child_agent_id && is_owner user_id c.business_id w.db)
        w.db.child_agents)
  or_raise found (Error.not_found "ChildAgent")
