-- ===== src/Agents/Child.antt =====
-- The deployed child agent of app/api/agents.py, as both `start_trial` and `unlock_agent` make or
-- update it. `encrypt` stands for the Fernet encryption of app/core/security.py, which is that of the
-- cryptography package.
use ethiogram.Base.{
  ℕ, ◌+◌, ◌*◌, String, Bool, true, ◌&&◌, Option, none, some, [], ◌∷◌, find_first, modify_first,
  count_if, nat_eq,
}
use ethiogram.Models.{Db, ChildAgent, Config}
use ethiogram.Request.{Action, pure, gets, modify_db, ◌>>=◌, ◌>>◌}

-- `StartTrialRequest` and `UnlockRequest`.
pub record DeployRequest : Type 0 where
  pub business_id : ℕ
  pub child_data : Option Config
  pub child_secrets : Option Config

-- Microseconds.
abbrev pub days : ℕ → ℕ
days n = n * 86400000000

abbrev or_empty : Option Config → Config
or_empty none = []
or_empty (some c) = c

-- Truth of an optional dictionary: neither absent nor empty.
abbrev given : Option Config → Option Config
given none = none
given (some []) = none
given (some (kv ∷ kvs)) = some (kv ∷ kvs)

abbrev pub deploys : ℕ → ℕ → ChildAgent → Bool
deploys agent_id business_id c = nat_eq c.agent_id agent_id && nat_eq c.business_id business_id

abbrev pub find_child : ℕ → ℕ → Db → Option ChildAgent
find_child agent_id business_id db = find_first (deploys agent_id business_id) db.child_agents

abbrev pub deployed : ℕ → Db → ℕ
deployed business_id db =
    count_if (λ (c : ChildAgent). nat_eq c.business_id business_id) db.child_agents

module _ (encrypt : Config → String) where
  abbrev encrypt_given : Option Config → Option String
  encrypt_given secrets = elim (given secrets) [ none ↦ none | some c ↦ some (encrypt c) ]

  abbrev new_child : ℕ → ℕ → DeployRequest → ChildAgent
  new_child id agent_id body = record {
    id = id;
    agent_id = agent_id;
    business_id = body.business_id;
    display_name = none;
    child_data = or_empty body.child_data;
    child_secrets = encrypt_given body.child_secrets;
    is_active = true;
    assigned_to_bot_id = none;
  }

  -- `if body.child_data: ...` and `if body.child_secrets: ...`
  abbrev pub reconfigure : DeployRequest → ChildAgent → ChildAgent
  reconfigure body c = record c {
    child_data = elim (given body.child_data) [ none ↦ c.child_data | some d ↦ d ];
    child_secrets = elim (given body.child_secrets) [
      | none ↦ c.child_secrets
      | some s ↦ some (encrypt s)
    ];
  }

  -- `db.add(child); await db.flush()`, with the new id.
  abbrev pub add_child : ℕ → DeployRequest → Action ℕ
  add_child agent_id body = do
    id ← gets (λ w. w.db.next_id)
    modify_db (λ db. record db {
      next_id = id + 1;
      child_agents = new_child id agent_id body ∷ db.child_agents;
    })
    pure id

  abbrev pub update_child : ℕ → DeployRequest → ChildAgent → Action ℕ
  update_child agent_id body child = do
    modify_db (λ db. record db {
      child_agents =
          modify_first (deploys agent_id body.business_id) (reconfigure body) db.child_agents;
    })
    pure child.id
