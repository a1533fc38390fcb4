-- ===== src/Metering/Escalation.antt =====
-- Which alert app/core/metering.py sends, against a description by severity, and how often.
use ethiogram.Base.{
  ℕ, ◌+◌, ◌≤◌, ◌≡◌, refl, Option, none, some, List, [], ◌∷◌, inl, inr, arith, length, lookup,
  lookup-insert_self, eq_nat, ltb, if◌then◌else◌, Option-cases,
}
use ethiogram.Base.Int.{ℤ, pos, leb_ℤ}
use ethiogram.Models.{World, Db, Bot, AlertType}
use ethiogram.Metering.{
  due_alert, grace_at, log_row, log_alert, send_alert, trigger_alerts_if_needed, find_wallet,
}

-- How grave an alert is; `paused` is never sent.
abbrev pub rank : Option AlertType → ℕ
rank none = 0
rank (some AlertType.low) = 1
rank (some AlertType.critical) = 2
rank (some AlertType.zero) = 3
rank (some AlertType.paused) = 0

-- The alert that a balance calls for by itself.
abbrev pub severity : ℤ → Option AlertType
severity balance =
    if leb_ℤ balance (pos 0)
    then some AlertType.zero
    else if leb_ℤ balance (pos 100)
    then some AlertType.critical
    else if leb_ℤ balance (pos 500)
    then some AlertType.low
    else none

-- The alert that is sent is the one that the balance calls for, and it is sent exactly when it is
-- graver than the last one that is remembered.
pub due_alert-eq_escalation :
    (balance : ℤ) (last : Option AlertType)
    → due_alert balance last
      ≡ (if ltb (rank last) (rank (severity balance)) then severity balance else none)
unfolding due_alert
due_alert-eq_escalation balance none = ground arith
due_alert-eq_escalation balance (some AlertType.low) = ground arith
due_alert-eq_escalation balance (some AlertType.critical) = ground arith
due_alert-eq_escalation balance (some AlertType.zero) = ground arith
due_alert-eq_escalation balance (some AlertType.paused) = ground arith

abbrev pub last_sent : ℕ → World → Option AlertType
last_sent b w = lookup b w.redis.alert_sent

-- The calls for one business at a sequence of balances, while no key expires.
pub run_alerts : ℕ → List ℤ → Option Bot → ℕ → World → World
run_alerts b [] bot now w = w
run_alerts b (v ∷ vs) bot now w = run_alerts b vs bot now (trigger_alerts_if_needed b v bot now w)

grace_at-alerts :
    (level : AlertType) (now : ℕ) (bot : Option Bot) (db : Db)
    → (grace_at level now bot db).alerts ≡ db.alerts
grace_at-alerts AlertType.zero now none db = refl
grace_at-alerts AlertType.zero now (some bot) db = ground arith
grace_at-alerts _ now bot db = refl

length-log_alert :
    (b : ℕ) (level : AlertType) (v : ℤ) (db : Db)
    → length (log_alert b level v db).alerts ≤ length db.alerts + 1
unfolding log_alert
length-log_alert b level v db = elim (Option-cases (find_wallet b db)) [
  | inl missing ↦ rw (missing, log_row) (omega arith)
  | inr (t, found) ↦ rw (found, log_row) (omega arith)
]

send_alert-counts :
    (b : ℕ) (level : AlertType) (v : ℤ) (bot : Option Bot) (now : ℕ) (w : World)
    → (length (send_alert b (some level) v bot now w).db.alerts ≤ length w.db.alerts + 1)
      × (last_sent b (send_alert b (some level) v bot now w) ≡ some level)
send_alert-counts b level v bot now w = (
  rw (grace_at-alerts level now bot (log_alert b level v w.db)) (length-log_alert b level v w.db),
  lookup-insert_self b level w.redis.alert_sent,
)

due_alert-rank :
    (v : ℤ) (last : Option AlertType) (level : AlertType)
    → due_alert v last ≡ some level
    → rank last + 1 ≤ rank (some level)
unfolding due_alert
due_alert-rank v none level due = ground arith
due_alert-rank v (some AlertType.low) level due = ground arith
due_alert-rank v (some AlertType.critical) level due = ground arith
due_alert-rank v (some AlertType.zero) level due = ground arith
due_alert-rank v (some AlertType.paused) level due = ground arith

due_alert_after_zero : (v : ℤ) → due_alert v (some AlertType.zero) ≡ none
unfolding due_alert
due_alert_after_zero v = ground arith

trigger-counts :
    (b : ℕ) (v : ℤ) (bot : Option Bot) (now : ℕ) (w : World)
    → let w' = trigger_alerts_if_needed b v bot now w in
      length w'.db.alerts + rank (last_sent b w) ≤ length w.db.alerts + rank (last_sent b w')
unfolding trigger_alerts_if_needed
trigger-counts b v bot now w = elim (Option-cases (due_alert v (last_sent b w))) [
  | inl quiet ↦ rw (quiet, send_alert) (omega arith)
  | inr (level, due) ↦
      let (count, sent) = send_alert-counts b level v bot now w in
      rw due (rw sent (omega (arith, due_alert-rank v (last_sent b w) level due)))
]

rank_bound : (level : Option AlertType) → rank level ≤ 3
rank_bound none = omega arith
rank_bound (some AlertType.low) = omega arith
rank_bound (some _) = omega arith

run_alerts-counts :
    (b : ℕ) (vs : List ℤ) (bot : Option Bot) (now : ℕ) (w : World)
    → let w' = run_alerts b vs bot now w in
      length w'.db.alerts + rank (last_sent b w) ≤ length w.db.alerts + rank (last_sent b w')
unfolding run_alerts
run_alerts-counts b [] bot now w = omega arith
run_alerts-counts b (v ∷ vs) bot now w = omega (
  arith,
  trigger-counts b v bot now w,
  run_alerts-counts b vs bot now (trigger_alerts_if_needed b v bot now w),
)

-- However often the balance of one business is checked and however it moves, while the Redis key
-- lives at most three alerts are written, and at most as many as there are levels above the last one
-- sent.
pub run_alerts-le_three :
    (b : ℕ) (vs : List ℤ) (bot : Option Bot) (now : ℕ) (w : World)
    → length (run_alerts b vs bot now w).db.alerts + rank (last_sent b w) ≤ length w.db.alerts + 3
run_alerts-le_three b vs bot now w =
    omega (
      arith,
      run_alerts-counts b vs bot now w,
      rank_bound (last_sent b (run_alerts b vs bot now w)),
    )

-- Once the zero alert is remembered, a check changes nothing at any balance: no alert is written,
-- and an active bot stays active.
pub trigger_after_zero :
    (b : ℕ) (v : ℤ) (bot : Option Bot) (now : ℕ) (w : World)
    → last_sent b w ≡ some AlertType.zero
    → trigger_alerts_if_needed b v bot now w ≡ w
unfolding trigger_alerts_if_needed
trigger_after_zero b v bot now w sent = rw sent (rw (due_alert_after_zero v))
