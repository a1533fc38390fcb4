-- ===== src/Reminders/Scan.antt =====
-- `due_reminder` and `scan_and_send` of workers/booking_reminders.py. `deliver` stands for the decryption
-- of the bot's token and the message that Telegram takes. The rows are visited in the table's order
-- rather than by their start, since a visit writes its own row only.
use ethiogram.Base.{
  ℕ, ◌+◌, ◌*◌, Bool, false, ◌&&◌, Option, none, some, List, find_first, modify_all, count_if,
  nat_eq, leb, ltb, ◌==◌, eq_string, is_some, if◌then◌else◌,
}
use ethiogram.Models.{Db, Booking, Bot, is_active}

pub data Kind : Type 0 where
  one_hour one_day : Kind

-- Microseconds.
abbrev pub hour : ℕ
hour = 3600000000

unfoldable pub due_reminder : (starts_at now : ℕ) (sent_24h sent_1h : Option ℕ) → Option Kind
due_reminder starts_at now sent_24h sent_1h =
    if leb starts_at now
    then none
    else if leb starts_at (now + hour)
    then (if is_some sent_1h then none else some Kind.one_hour)
    else if leb starts_at (now + 24 * hour)
    then (if is_some sent_24h then none else some Kind.one_day)
    else none

abbrev pub due : ℕ → Booking → Option Kind
unfolding due_reminder
due now b = due_reminder b.starts_at now b.reminder_24h_sent_at b.reminder_1h_sent_at

-- The query: confirmed, and starting within 24 hours.
abbrev pub is_upcoming : ℕ → Booking → Bool
is_upcoming now b =
    b.status == "confirmed" && (ltb now b.starts_at && leb b.starts_at (now + 24 * hour))

abbrev pub mark : ℕ → Booking → Booking
unfolding due_reminder
mark now b = elim (due now b) [
  | none ↦ b
  | some Kind.one_hour ↦ record b { reminder_1h_sent_at = some now }
  | some Kind.one_day ↦ record b { reminder_24h_sent_at = some now }
]

module _ (deliver : Bot → Booking → Kind → Bool) where
  -- `_send_reminder`: a business with no active bot sends nothing.
  abbrev pub send_reminder : List Bot → Booking → Kind → Bool
  send_reminder bots b kind =
      elim (find_first (λ (bot : Bot). nat_eq bot.business_id b.business_id && is_active bot.status)
        bots) [ none ↦ false | some bot ↦ deliver bot b kind ]

  abbrev pub is_sent : List Bot → ℕ → Booking → Bool
  unfolding due_reminder
  is_sent bots now b =
      is_upcoming now b && elim (due now b) [ none ↦ false | some kind ↦ send_reminder bots b kind ]

  -- The number that is sent, and the rows.
  unfoldable pub scan_and_send : ℕ → Db → ℕ × Db
  unfolding due_reminder
  scan_and_send now db = (
    count_if (is_sent db.bots now) db.bookings,
    record db { bookings = modify_all (is_sent db.bots now) (mark now) db.bookings },
  )
