-- ===== src/Agents/Once.antt =====
-- Trials and reviews of app/api/agents.py, of one agent by one business.
use ethiogram.Base.{
  ℕ, ◌+◌, ◌≤◌, ◌≡◌, refl, Bool, true, false, not, ◌||◌, none, some, List, [], ◌∷◌, inl, inr, arith,
  find_first, count_if, keep, nat_eq, nat_eq_iff, is_some, Option-cases, String, modify_first, max,
  leb,
}
use ethiogram.Models.{
  World, Db, Agent, AgentTrial, is_live, AgentUnlock, ChildAgent, Config, Settings, Error,
}
use ethiogram.Request.{Result, ok, err}
use ethiogram.Agents.{
  reviewable, reviewed_by, submit_review, start_trial, DeployRequest, deployed, find_trial,
  new_trial, trial_child, find_agent, owns_business, find_child, deploys, reconfigure, days,
}

-- A business has at most one review of each agent.
abbrev pub IsReviewedOnce : Db → Type 0
IsReviewedOnce db =
    (agent_id business_id : ℕ) → count_if (reviewed_by agent_id business_id) db.reviews ≤ 1

find_none-count :
    {A : Type 0} (p : A → Bool) (xs : List A) → find_first p xs ≡ none → count_if p xs ≡ 0
find_none-count p [] e = refl
find_none-count p (x ∷ xs) e = ground (arith, find_none-count p xs)

module _ (agent_id rating user_id : ℕ) (w : World) where
  single_unlock :
      (u : AgentUnlock)
      → keep (reviewable agent_id user_id w.db) w.db.unlocks ≡ u ∷ []
      → IsReviewedOnce w.db
      → IsReviewedOnce (submit_review agent_id rating user_id w).1.db
  unfolding submit_review
  single_unlock u e h a b =
      elim (Option-cases (find_first (reviewed_by agent_id u.business_id) w.db.reviews)) [
        | inr (r, old) ↦ rw e (rw old (h a b))
        | inl new ↦ rw e (
            rw new (
              ground (
                arith,
                h a b,
                find_none-count (reviewed_by agent_id u.business_id) w.db.reviews new,
                nat_eq_iff agent_id a,
                nat_eq_iff u.business_id b,
              )))
      ]

  by_unlocks :
      (us : List AgentUnlock)
      → keep (reviewable agent_id user_id w.db) w.db.unlocks ≡ us
      → IsReviewedOnce w.db
      → IsReviewedOnce (submit_review agent_id rating user_id w).1.db
  unfolding submit_review
  by_unlocks [] e h a b = rw e (h a b)
  by_unlocks (u ∷ []) e h a b = single_unlock u e h a b
  by_unlocks (u ∷ v ∷ us) e h a b = rw e (h a b)

  -- Whoever submits a review, no business has two reviews of one agent afterwards if none had before.
  pub submit_review-IsReviewedOnce :
      IsReviewedOnce w.db → IsReviewedOnce (submit_review agent_id rating user_id w).1.db
  submit_review-IsReviewedOnce = by_unlocks _ refl

-- What a trial asks for: a live agent, an owned business, no trial of that agent before, and a child
-- agent that is deployed already or room for one more.
pub record IsTriable (settings : Settings) (agent_id b user_id : ℕ) (db : Db) (a : Agent)
    : Type 0 where
  pub agent : find_agent agent_id db ≡ some a
  pub live : is_live a.status ≡ true
  pub owned : owns_business user_id b db ≡ true
  pub fresh : find_trial agent_id b db ≡ none
  pub room :
      (is_some (find_child agent_id b db)
        || not (leb settings.max_child_agents_per_bot (deployed b db)))
      ≡ true

abbrev pub is_ok : {A : Type 0} → Result A → Bool
is_ok (ok a) = true
is_ok (err e) = false

module _ (encrypt : Config → String) (settings : Settings) (agent_id : ℕ) (body : DeployRequest)
    (user_id now : ℕ) (w : World) where
  deployed-modify_first :
      (b : ℕ) (cs : List ChildAgent)
      → count_if
          (λ (c : ChildAgent). nat_eq c.business_id b)
          (modify_first (deploys agent_id body.business_id) (reconfigure encrypt body) cs)
        ≡ count_if (λ (c : ChildAgent). nat_eq c.business_id b) cs
  deployed-modify_first b [] = refl
  deployed-modify_first b (c ∷ cs) = ground (arith, deployed-modify_first b cs)

  -- A trial starts where the agent is live, the business owned and in good standing, the agent not
  -- tried before, and the child agent deployed already or the cap not reached: it ends after the
  -- configured number of days, the business has no more child agents than before or than the cap,
  -- and a second trial of the same agent is refused at any later time, with any configuration, and
  -- changes nothing.
  pub start_trial_once :
      (again : DeployRequest) (later : ℕ) {a : Agent}
      → IsTriable settings agent_id body.business_id user_id w.db a
      → again.business_id ≡ body.business_id
      → let (r, w') = start_trial encrypt settings agent_id body user_id now w in
        (is_ok r ≡ true)
        × ((t : AgentTrial) × (find_trial agent_id body.business_id w'.db ≡ some t)
            × (t.expires_at ≡ now + days settings.trial_duration_days))
        × (deployed body.business_id w'.db
            ≤ max (deployed body.business_id w.db) settings.max_child_agents_per_bot)
        × (start_trial encrypt settings agent_id again user_id later w'
            ≡ (err (Error.already_exists "AgentTrial"), w'))
  unfolding start_trial
  start_trial_once again later h same =
      elim (Option-cases (find_child agent_id body.business_id w.db)) [
        | inl missing ↦
            (let open_place = ltb_room h.room missing in
              rw (h.agent) (
                rw (h.live) (
                  rw (h.owned) (
                    rw (h.fresh) (
                      rw (missing, trial_child)
                        (rw open_place (
                          refl,
                          (
                            new_trial (w.db.next_id + 1) agent_id body.business_id w.db.next_id
                                (now + days settings.trial_duration_days),
                            ground arith,
                            refl,
                          ),
                          ground arith,
                          ground (arith, h.agent, h.live, h.owned, same),
                        )))))))
        | inr (c, found) ↦ rw (h.agent) (
            rw (h.live) (
              rw (h.owned) (
                rw (h.fresh) (
                  rw (found, trial_child)
                    (
                      refl,
                      (
                        new_trial w.db.next_id agent_id body.business_id c.id
                            (now + days settings.trial_duration_days),
                        ground arith,
                        refl,
                      ),
                      ground (arith, deployed-modify_first body.business_id w.db.child_agents),
                      ground (arith, h.agent, h.live, h.owned, same),
                    )))))
      ]
    where
      ltb_room :
          (is_some (find_child agent_id body.business_id w.db)
              || not (leb settings.max_child_agents_per_bot (deployed body.business_id w.db)))
            ≡ true
          → find_child agent_id body.business_id w.db ≡ none
          → leb settings.max_child_agents_per_bot (deployed body.business_id w.db) ≡ false
      ltb_room r missing = ground arith
