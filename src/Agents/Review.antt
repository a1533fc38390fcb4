-- ===== src/Agents/Review.antt =====
-- Publishing and reviewing an agent in app/api/agents.py.
use ethiogram.Base.{
  ℕ, ◌+◌, String, Bool, true, false, not, ◌&&◌, Option, none, some, List, [], ◌∷◌, find_first,
  modify_first, keep, count_if, nat_eq, is_some, if◌then◌else◌,
}
use ethiogram.Models.{Db, Agent, AgentStatus, AgentUnlock, AgentReview, CreatorProfile, Error}
use ethiogram.Request.{Action, pure, gets, modify_db, or_raise, raise_if, one_or_none, ◌>>=◌, ◌>>◌}

-- `PublishAgentRequest`, with the fields that the modelled code uses later.
pub record PublishRequest : Type 0 where
  pub name : String
  pub price_etg : ℕ

-- A trusted creator's agent is live at once; another's waits for a review.
abbrev initial_status : CreatorProfile → AgentStatus
initial_status profile = if profile.is_trusted then AgentStatus.live else AgentStatus.pending_review

abbrev new_agent : ℕ → CreatorProfile → PublishRequest → Agent
new_agent id profile body = record {
  id = id;
  creator_id = profile.id;
  name = body.name;
  price_etg = body.price_etg;
  status = initial_status profile;
  total_unlocks = 0;
  average_rating = none;
  review_count = 0;
  rejection_reason = none;
  reviewed_by_id = none;
  reviewed_at = none;
}

abbrev profile_of : ℕ → Db → Option CreatorProfile
profile_of user_id db = find_first (λ (c : CreatorProfile). nat_eq c.user_id user_id) db.creators

unfoldable pub publish_agent : PublishRequest → ℕ → Action Agent
publish_agent body user_id = do
  found ← gets (λ w. profile_of user_id w.db)
  profile ← or_raise found Error.permission_denied
  id ← gets (λ w. w.db.next_id)
  modify_db (λ db. record db { next_id = id + 1; agents = new_agent id profile body ∷ db.agents })
  pure (new_agent id profile body)

-- The agent's creator is another user: `Agent.creator_id.in_(select(...))`.
abbrev by_other : ℕ → ℕ → Db → Bool
by_other user_id creator_id db = is_some (
    find_first (λ (c : CreatorProfile). nat_eq c.id creator_id && not (nat_eq c.user_id user_id))
      db.creators)

-- The query of `submit_review`: the unlocks of the agent by any business at all, if the agent's
-- creator is not the current user.
abbrev pub reviewable : ℕ → ℕ → Db → AgentUnlock → Bool
reviewable agent_id user_id db u =
    nat_eq u.agent_id agent_id
    && (elim (find_first (λ (a : Agent). nat_eq a.id u.agent_id) db.agents) [
      | none ↦ false
      | some a ↦ by_other user_id a.creator_id db
    ])

abbrev counts_for : ℕ → AgentReview → Bool
counts_for agent_id r = nat_eq r.agent_id agent_id && r.is_visible

abbrev rating_sum : List AgentReview → ℕ
rating_sum [] = 0
rating_sum (r ∷ rs) = r.rating + rating_sum rs

abbrev pub rate : List AgentReview → Agent → Agent
rate rs agent = record agent {
  average_rating =
      if nat_eq (rating_sum rs) 0
      then none
      else some (rating_sum rs, count_if (λ (r : AgentReview). true) rs);
  review_count = count_if (λ (r : AgentReview). true) rs;
}

-- `_update_agent_rating`
abbrev pub update_agent_rating : ℕ → Db → Db
update_agent_rating agent_id db = record db {
  agents =
      modify_first (λ (a : Agent). nat_eq a.id agent_id)
        (rate (keep (counts_for agent_id) db.reviews)) db.agents;
}

abbrev pub reviewed_by : ℕ → ℕ → AgentReview → Bool
reviewed_by agent_id business_id r = nat_eq r.agent_id agent_id && nat_eq r.business_id business_id

-- The validator of `ReviewRequest` has let through ratings from 1 to 5 only.
unfoldable pub submit_review : ℕ → ℕ → ℕ → Action ℕ
submit_review agent_id rating user_id = do
  found ← (λ w. one_or_none (keep (reviewable agent_id user_id w.db) w.db.unlocks) w)
  unlock ← or_raise found Error.permission_denied
  existing ← gets (λ w. find_first (reviewed_by agent_id unlock.business_id) w.db.reviews)
  raise_if (is_some existing) (Error.already_exists "AgentReview")
  id ← gets (λ w. w.db.next_id)
  modify_db (λ db. record db {
    next_id = id + 1;
    reviews =
        record {
          id = id;
          agent_id = agent_id;
          business_id = unlock.business_id;
          unlock_id = unlock.id;
          rating = rating;
          is_visible = true;
        }
        ∷ db.reviews;
  })
  modify_db (update_agent_rating agent_id)
  pure id
