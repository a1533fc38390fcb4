-- ===== src/TrialMonitor/Expiry.antt =====
-- The stages of a trial in workers/trial_monitor.py as times, and the child agents of trials that end.
use ethiogram.Base.{
  ℕ, ◌+◌, ◌<◌, ◌≡◌, refl, Bool, true, false, not, ◌&&◌, Option, none, some, List, [], ◌∷◌, inl, inr,
  ◌⊎◌, ◌↔◌, arith, find_first, modify_first, keep, leb, ltb, is_some, Bool-cases,
}
use ethiogram.Base.Int.{pos, ltb_ℤ}
use ethiogram.Base.Sequences.{IsIn, keep-IsIn}
use ethiogram.Models.{Db, AgentTrial, ChildAgent}
use ethiogram.Agents.{days}
use ethiogram.TrialMonitor.{
  days_left, Stage, stage, is_child, deactivate, handle, Stats, process_all, by_expiry,
  insert_by_expiry, unconverted, process_trials, equals,
}

-- The three tests on the number of days, as times.
days_left_bounds :
    (expires_at now : ℕ)
    → (ltb_ℤ (pos 2) (days_left expires_at now) ≡ leb (now + days 3) expires_at)
      × (not (ltb_ℤ (pos 0) (days_left expires_at now)) ≡ ltb expires_at (now + days 1))
      × (equals (days_left expires_at now) 1
          ≡ (leb (now + days 1) expires_at && ltb expires_at (now + days 2)))
      × (equals (days_left expires_at now) 2
          ≡ (leb (now + days 2) expires_at && ltb expires_at (now + days 3)))
days_left_bounds expires_at now = (ground arith, ground arith, ground arith, ground arith)

-- A trial is ended when less than a day is left of it, up to 24 hours before it expires; it gets the
-- critical warning in the day before that, and the first warning in the day before that one. Each
-- happens only where its mark is not set.
pub stage_lem :
    (now : ℕ) (t : AgentTrial)
    → ((stage now t ≡ Stage.expired)
        ↔ ((ltb t.expires_at (now + days 1) && not (is_some t.expired_notified_at)) ≡ true))
      × ((stage now t ≡ Stage.critical) ↔ (
          (leb (now + days 1) t.expires_at
            && (ltb t.expires_at (now + days 2) && not (is_some t.critical_sent_at)))
          ≡ true))
      × ((stage now t ≡ Stage.warning) ↔ (
          (leb (now + days 2) t.expires_at
            && (ltb t.expires_at (now + days 3) && not (is_some t.warning_sent_at)))
          ≡ true))
unfolding stage
stage_lem now t =
    let (skip, over, last, soon) = days_left_bounds t.expires_at now in
    (
      ground (arith, skip, over, last, soon),
      ground (arith, skip, over, last, soon),
      ground (arith, skip, over, last, soon),
    )

-- No child agent with the id is active: the row that the id finds, if there is one, is off.
abbrev pub is_off : ℕ → Db → Bool
is_off id db = elim (find_first (is_child id) db.child_agents) [
  | none ↦ true
  | some c ↦ not c.is_active
]

off_at : ℕ → List ChildAgent → Bool
off_at id cs = elim (find_first (is_child id) cs) [ none ↦ true | some c ↦ not c.is_active ]

modify-off_at :
    (id k : ℕ) (cs : List ChildAgent)
    → let cs' = modify_first (is_child k) (λ c. record c { is_active = false }) cs in
      (off_at id cs ≡ true → off_at id cs' ≡ true) × (id ≡ k → off_at id cs' ≡ true)
unfolding off_at
modify-off_at id k [] = ground arith
modify-off_at id k (c ∷ cs) = ground (arith, modify-off_at id k cs)

deactivate-off : (id : ℕ) (db : Db) → is_off id (deactivate (some id) db) ≡ true
unfolding off_at
deactivate-off id db = (modify-off_at id id db.child_agents).1 refl

deactivate-keeps :
    (id : ℕ) (k : Option ℕ) (db : Db) → is_off id db ≡ true → is_off id (deactivate k db) ≡ true
unfolding off_at
deactivate-keeps id none db h = h
deactivate-keeps id (some k) db h = (modify-off_at id k db.child_agents).0 h

module _ (notify : (business_id : ℕ) → Db → Bool) where
  handle-keeps :
      (id : ℕ) (s : Stage) (t : AgentTrial) (now : ℕ) (db : Db)
      → is_off id db ≡ true
      → is_off id (handle notify s t now db) ≡ true
  handle-keeps id Stage.expired t now db h =
      ground (arith, deactivate-keeps id t.child_agent_id db h)
  handle-keeps id Stage.critical t now db h = ground (arith, h)
  handle-keeps id Stage.warning t now db h = ground (arith, h)
  handle-keeps id Stage.skipped t now db h = h

  process_all-keeps :
      (id : ℕ) (ts : List AgentTrial) (now : ℕ) (s : Stats) (db : Db)
      → is_off id db ≡ true
      → is_off id (process_all notify ts now s db).1 ≡ true
  unfolding process_all
  process_all-keeps id [] now s db h = h
  process_all-keeps id (t ∷ ts) now s db h =
      process_all-keeps id ts now _ _ (handle-keeps id (stage now t) t now db h)

  handle-off :
      (id : ℕ) (t : AgentTrial) (now : ℕ) (db : Db)
      → t.child_agent_id ≡ some id
      → is_off id (handle notify Stage.expired t now db) ≡ true
  handle-off id t now db e = rw e (ground (arith, deactivate-off id db))

  process_all-off :
      (id : ℕ) (ts : List AgentTrial) (now : ℕ) (s : Stats) (db : Db) (t : AgentTrial)
      → IsIn t ts
      → stage now t ≡ Stage.expired
      → t.child_agent_id ≡ some id
      → is_off id (process_all notify ts now s db).1 ≡ true
  unfolding process_all
  process_all-off id [] now s db t m e c = absurd m
  process_all-off id (x ∷ ts) now s db t (inl same) e c =
      process_all-keeps id ts now _ _ (rw same (rw e (handle-off id t now db c)))
  process_all-off id (x ∷ ts) now s db t (inr m) e c = process_all-off id ts now _ _ t m e c

  IsIn-insert :
      (t x : AgentTrial) (ts : List AgentTrial)
      → (x ≡ t) ⊎ IsIn t ts
      → IsIn t (insert_by_expiry notify x ts)
  IsIn-insert t x [] m = m
  IsIn-insert t x (y ∷ ts) m = elim (Bool-cases (leb x.expires_at y.expires_at)) [
    | inl first ↦ rw first m
    | inr later ↦ rw later (elim m [
      | inl same ↦ inr (IsIn-insert t x ts (inl same))
      | inr (inl same) ↦ inl same
      | inr (inr rest) ↦ inr (IsIn-insert t x ts (inr rest))
    ])
  ]

  IsIn-by_expiry :
      (t : AgentTrial) (ts : List AgentTrial) → IsIn t ts → IsIn t (by_expiry notify ts)
  IsIn-by_expiry t [] m = m
  IsIn-by_expiry t (x ∷ ts) (inl same) = IsIn-insert t x (by_expiry notify ts) (inl same)
  IsIn-by_expiry t (x ∷ ts) (inr m) =
      IsIn-insert t x (by_expiry notify ts) (inr (IsIn-by_expiry t ts m))

  -- A run deactivates the child agent of every trial that is not converted, has less than a day left and
  -- has not been ended before, whether or not the notifications go through.
  pub process_trials-deactivates :
      (now : ℕ) (db : Db) (t : AgentTrial) (id : ℕ)
      → IsIn t db.trials
      → t.is_converted ≡ false
      → t.expires_at < now + days 1
      → t.expired_notified_at ≡ none
      → t.child_agent_id ≡ some id
      → is_off id (process_trials notify now db).1 ≡ true
  unfolding process_trials
  process_trials-deactivates now db t id m open_trial late new c =
      process_all-off id (by_expiry notify (keep (unconverted notify) db.trials)) now _ db t
        (IsIn-by_expiry t (keep (unconverted notify) db.trials)
          (keep-IsIn (unconverted notify) db.trials m (ground (arith, open_trial))))
        ((stage_lem now t).0.1 (ground (arith, new, late))) c
