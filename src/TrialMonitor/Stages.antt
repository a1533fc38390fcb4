-- ===== src/TrialMonitor/Stages.antt =====
-- `_process_trials` of workers/trial_monitor.py. `now` is one time for the run. `notify` tells whether
-- `_notify_business` returns; it may raise before its own `try`, and then the loop logs the exception and
-- commits what the handler wrote so far.
use ethiogram.Base.{
  ℕ, ◌+◌, ◌-◌, ◌/◌, Bool, false, not, ◌&&◌, Option, none, some, List, [], ◌∷◌, modify_first, keep,
  nat_eq, leb, is_some, if◌then◌else◌,
}
use ethiogram.Base.Int.{ℤ, pos, negsuc, ltb_ℤ}
use ethiogram.Models.{Db, AgentTrial, ChildAgent}
use ethiogram.Agents.{days}

-- `(trial.expires_at - now).days`, which is rounded down.
abbrev pub days_left : ℕ → ℕ → ℤ
days_left expires_at now =
    if leb now expires_at
    then pos ((expires_at - now) / days 1)
    else negsuc ((now - expires_at - 1) / days 1)

-- What is due for a trial.
pub data Stage : Type 0 where
  expired critical warning skipped : Stage

abbrev pub equals : ℤ → ℕ → Bool
equals (pos m) n = nat_eq m n
equals (negsuc m) n = false

unfoldable pub stage : ℕ → AgentTrial → Stage
stage now t =
    let left = days_left t.expires_at now in
    if ltb_ℤ (pos 2) left
    then Stage.skipped
    else if not (ltb_ℤ (pos 0) left) && not (is_some t.expired_notified_at)
    then Stage.expired
    else if equals left 1 && not (is_some t.critical_sent_at)
    then Stage.critical
    else if equals left 2 && not (is_some t.warning_sent_at)
    then Stage.warning
    else Stage.skipped

abbrev pub is_trial : ℕ → AgentTrial → Bool
is_trial id t = nat_eq t.id id

abbrev pub is_child : ℕ → ChildAgent → Bool
is_child id c = nat_eq c.id id

abbrev pub deactivate : Option ℕ → Db → Db
deactivate none db = db
deactivate (some id) db = record db {
  child_agents = modify_first (is_child id) (λ c. record c { is_active = false }) db.child_agents;
}

abbrev pub write_trial : (AgentTrial → AgentTrial) → AgentTrial → Db → Db
write_trial f t db = record db { trials = modify_first (is_trial t.id) f db.trials }

pub record Stats : Type 0 where
  pub warned : ℕ
  pub critical : ℕ
  pub expired : ℕ
  pub skipped : ℕ

module _ (notify : (business_id : ℕ) → Db → Bool) where
  -- `_handle_expired` deactivates the child agent before the message. What was written stays, and the
  -- mark is set where the message did not raise.
  abbrev pub handle : Stage → AgentTrial → ℕ → Db → Db
  handle Stage.expired t now db =
      let off = deactivate t.child_agent_id db in
      if notify t.business_id off
      then write_trial (λ r. record r { expired_notified_at = some now }) t off
      else off
  handle Stage.critical t now db =
      if notify t.business_id db
      then write_trial (λ r. record r { critical_sent_at = some now }) t db
      else db
  handle Stage.warning t now db =
      if notify t.business_id db
      then write_trial (λ r. record r { warning_sent_at = some now }) t db
      else db
  handle Stage.skipped t now db = db

  abbrev pub count : Stage → AgentTrial → Db → Stats → Stats
  count Stage.expired t db s =
      if notify t.business_id (deactivate t.child_agent_id db)
      then record s { expired = s.expired + 1 }
      else s
  count Stage.critical t db s =
      if notify t.business_id db then record s { critical = s.critical + 1 } else s
  count Stage.warning t db s =
      if notify t.business_id db then record s { warned = s.warned + 1 } else s
  count Stage.skipped t db s = record s { skipped = s.skipped + 1 }

  unfoldable pub process_all : List AgentTrial → ℕ → Stats → Db → Stats × Db
  unfolding stage
  process_all [] now s db = (s, db)
  process_all (t ∷ ts) now s db =
      process_all ts now (count (stage now t) t db s) (handle (stage now t) t now db)

  abbrev pub insert_by_expiry : AgentTrial → List AgentTrial → List AgentTrial
  insert_by_expiry t [] = t ∷ []
  insert_by_expiry t (x ∷ xs) =
      if leb t.expires_at x.expires_at then t ∷ x ∷ xs else x ∷ insert_by_expiry t xs

  -- `order_by(AgentTrial.expires_at.asc())`
  abbrev pub by_expiry : List AgentTrial → List AgentTrial
  by_expiry [] = []
  by_expiry (t ∷ ts) = insert_by_expiry t (by_expiry ts)

  abbrev pub unconverted : AgentTrial → Bool
  unconverted t = not t.is_converted

  unfoldable pub process_trials : ℕ → Db → Stats × Db
  unfolding process_all
  process_trials now db =
      process_all (by_expiry (keep unconverted db.trials)) now
        (record { warned = 0; critical = 0; expired = 0; skipped = 0 }) db
