-- ===== src/Admin/Market.antt =====
-- The review of agents in app/api/admin.py, and the suspension of a business in
-- app/api/admin_panel.py.
use ethiogram.Base.{
  ℕ, String, Bool, not, ◌||◌, Option, none, some, is_some, find_first, modify_first, nat_eq, ◌==◌,
  eq_string, if◌then◌else◌,
}
use ethiogram.Models.{User, Agent, AgentStatus, Business, Error}
use ethiogram.Request.{Action, raise_if, gets, modify_db, ◌>>=◌, ◌>>◌}
use ethiogram.Admin.Audit.{audit}

abbrev pub is_agent : ℕ → Agent → Bool
is_agent id agent = nat_eq agent.id id

abbrev pub known_agent : ℕ → Action Unit
known_agent id = do
  known ← gets (λ w. is_some (find_first (is_agent id) w.db.agents))
  raise_if (not known) (Error.not_found "Agent")

abbrev pub write_agent : ℕ → (Agent → Agent) → Action Unit
write_agent id change =
    modify_db (λ db. record db { agents = modify_first (is_agent id) change db.agents })

abbrev pub judged :
    (admin : User) → (action : String) → (reason : Option String) → (now : ℕ) → Agent → Agent
judged admin action reason now agent = record agent {
  status = if action == "approve" then AgentStatus.live else AgentStatus.rejected;
  rejection_reason = if action == "reject" then reason else none;
  reviewed_by_id = some admin.id;
  reviewed_at = some now;
}

unfoldable pub review_agent :
    (current_admin : User)
    → (agent_id : ℕ) → (action : String) → (reason : Option String) → (now : ℕ) → Action Unit
review_agent current_admin agent_id action reason now = do
  raise_if (not (action == "approve" || action == "reject"))
      (Error.validation_error "action must be 'approve' or 'reject'")
  known_agent agent_id
  write_agent agent_id (judged current_admin action reason now)
  audit current_admin (if action == "approve" then "agent_approve" else "agent_reject") "agent"

unfoldable pub suspend_agent :
    (current_admin : User) → (agent_id : ℕ) → (reason : String) → Action Unit
suspend_agent current_admin agent_id reason = do
  known_agent agent_id
  write_agent agent_id
      (λ agent. record agent { status = AgentStatus.suspended; rejection_reason = some reason })
  audit current_admin "suspend_agent" "agent"

abbrev pub is_business : ℕ → Business → Bool
is_business id b = nat_eq b.id id

-- The caches of the storefront, which the handler drops as well, are left out.
unfoldable pub suspend_business :
    (current_admin : User)
    → (business_id : ℕ) → (suspend : Bool) → (reason : Option String) → Action Unit
suspend_business current_admin business_id suspend reason = do
  known ← gets (λ w. is_some (find_first (is_business business_id) w.db.businesses))
  raise_if (not known) (Error.not_found "Business")
  modify_db (λ db. record db {
    businesses =
        modify_first (is_business business_id)
          (λ b. record b {
            is_suspended = suspend;
            suspended_reason = if suspend then reason else none;
          })
          db.businesses;
  })
  audit current_admin (if suspend then "business.suspend" else "business.unsuspend") "business"
