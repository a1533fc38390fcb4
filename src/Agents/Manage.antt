-- ===== src/Agents/Manage.antt =====
-- The management of a deployed child agent in app/api/agents.py.
use ethiogram.Base.{
  ℕ, ◌-◌, ◌/◌, String, Bool, false, not, ◌&&◌, Option, none, some, find_first, modify_first,
  count_if, nat_eq, is_some, if◌then◌else◌,
}
use ethiogram.Models.{Db, ChildAgent, AgentTrial, AgentUnlock, Bot, Config, Error}
use ethiogram.Request.{Action, pure, raise, gets, modify_db, raise_if, ◌>>=◌, ◌>>◌}
use ethiogram.Agents.Access.{get_owned_child_agent}
use ethiogram.Agents.Child.{days}

-- The optional `assigned_bot_id` of a request, as `uuid.UUID` reads it: the empty text for all bots,
-- a text that is no UUID, or a bot's id.
pub data BotChoice : Type 0 where
  all_bots malformed : BotChoice
  bot : ℕ → BotChoice

pub record ChildAgentUpdate : Type 0 where
  pub child_data : Option Config
  pub child_secrets : Option Config
  pub display_name : Option String
  pub is_active : Option Bool
  pub assigned_bot_id : Option BotChoice

abbrev or_keep : {A : Type 0} → Option A → A → A
or_keep none old = old
or_keep (some new) old = new

abbrev is_child : ℕ → ChildAgent → Bool
is_child id c = nat_eq c.id id

abbrev write_child : ℕ → (ChildAgent → ChildAgent) → Action Unit
write_child id f =
    modify_db (λ db. record db { child_agents = modify_first (is_child id) f db.child_agents })

abbrev assign : Option ℕ → ChildAgent → ChildAgent
assign bot_id c = record c { assigned_to_bot_id = bot_id }

-- `None` leaves the assignment as it is.
abbrev assign_bot : ChildAgent → Option BotChoice → Action Unit
assign_bot child none = pure tt
assign_bot child (some all_bots) = write_child child.id (assign none)
assign_bot child (some malformed) =
    raise (Error.validation_error "assigned_bot_id must be a bot UUID or empty")
assign_bot child (some (bot bot_id)) = do
  found ← gets (λ w.
      find_first (λ (b : Bot). nat_eq b.id bot_id && nat_eq b.business_id child.business_id)
        w.db.bots)
  raise_if (not (is_some found)) (Error.not_found "Bot")
  write_child child.id (assign (some bot_id))

module _ (encrypt : Config → String) where
  abbrev update_fields : ChildAgentUpdate → ChildAgent → ChildAgent
  update_fields body c = record c {
    child_data = or_keep body.child_data c.child_data;
    child_secrets = elim body.child_secrets [ none ↦ c.child_secrets | some s ↦ some (encrypt s) ];
    display_name = elim body.display_name [ none ↦ c.display_name | some n ↦ some n ];
    is_active = or_keep body.is_active c.is_active;
  }

  -- The fields are written before the bot is looked up; an exception rolls them back.
  unfoldable pub update_child_agent : ℕ → ChildAgentUpdate → ℕ → Action Unit
  unfolding get_owned_child_agent
  update_child_agent id body user_id = do
    child ← get_owned_child_agent id user_id
    write_child child.id (update_fields body)
    assign_bot child body.assigned_bot_id

unfoldable pub disconnect_child_secrets : ℕ → ℕ → Action Unit
unfolding get_owned_child_agent
disconnect_child_secrets id user_id = do
  child ← get_owned_child_agent id user_id
  write_child child.id (λ c. record c { child_secrets = none })

-- `func.count(...)` over the unlocks that are not refunded.
abbrev is_unlock_of : ℕ → AgentUnlock → Bool
is_unlock_of child_id u = elim u.child_agent_id [
  | none ↦ false
  | some c ↦ nat_eq c child_id && not u.is_refunded
]

abbrev is_trial_of : ℕ → AgentTrial → Bool
is_trial_of child_id t = elim t.child_agent_id [ none ↦ false | some c ↦ nat_eq c child_id ]

pub data ChildStatus : Type 0 where
  unlocked : ChildStatus
  trial : (days_left : Option ℕ) → ChildStatus

-- The rows of `trials` stand newest first, as `order_by(created_at.desc())` wants them. The whole
-- days left are `max(0, (exp - now).days)`.
unfoldable pub child_status : ChildAgent → ℕ → Db → ChildStatus
child_status child now db =
    if nat_eq (count_if (is_unlock_of child.id) db.unlocks) 0
    then trial (elim (find_first (is_trial_of child.id) db.trials) [
      | none ↦ none
      | some t ↦ some ((t.expires_at - now) / days 1)
    ])
    else unlocked
