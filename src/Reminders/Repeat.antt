-- ===== src/Reminders/Repeat.antt =====
-- Repeated scans of workers/booking_reminders.py.
use ethiogram.Base.{
  ℕ, ◌+◌, ◌≤◌, Bool, true, false, not, ◌&&◌, Option, some, List, [], ◌∷◌, arith, count_if,
  modify_all, is_some,
}
use ethiogram.Models.{Db, Booking, Bot}
use ethiogram.Reminders.{Kind, due_reminder, due, mark, is_sent, scan_and_send}

abbrev is_kind : Kind → Option Kind → Bool
is_kind Kind.one_hour (some Kind.one_hour) = true
is_kind Kind.one_day (some Kind.one_day) = true
is_kind _ _ = false

-- A booking that has no mark of the kind yet.
abbrev pub unmarked : Kind → Booking → Bool
unmarked Kind.one_hour b = not (is_some b.reminder_1h_sent_at)
unmarked Kind.one_day b = not (is_some b.reminder_24h_sent_at)

-- How Telegram answers to one scan, and the time of the scan.
abbrev pub Visit : Type 0
Visit = (Bot → Booking → Kind → Bool) × ℕ

-- The bookings that a scan sends a reminder of one kind.
abbrev pub gets_kind : Kind → Visit → List Bot → Booking → Bool
unfolding due_reminder
gets_kind kind (deliver, now) bots b = is_sent deliver bots now b && is_kind kind (due now b)

abbrev pub after : Visit → Db → Db
after (deliver, now) db = (scan_and_send deliver now db).1

-- How many reminders of one kind a sequence of scans sends.
abbrev pub sent_of_kind : Kind → List Visit → Db → ℕ
unfolding due_reminder
sent_of_kind kind [] db = 0
sent_of_kind kind (v ∷ vs) db =
    count_if (gets_kind kind v db.bots) db.bookings + sent_of_kind kind vs (after v db)

visit-step :
    (kind : Kind) (deliver : Bot → Booking → Kind → Bool) (now : ℕ) (bots : List Bot)
    (bs : List Booking)
    → count_if (gets_kind kind (deliver, now) bots) bs
        + count_if (unmarked kind) (modify_all (is_sent deliver bots now) (mark now) bs)
      ≤ count_if (unmarked kind) bs
unfolding due_reminder
visit-step kind deliver now bots [] = omega arith
visit-step kind deliver now bots (b ∷ bs) = ground (arith, visit-step kind deliver now bots bs)

-- Over any sequence of scans, at any times and whatever messages fail, the reminders of one kind are no
-- more than the bookings that had no mark of that kind at the start.
pub scan_and_send_once :
    (vs : List Visit) (db : Db) (kind : Kind)
    → sent_of_kind kind vs db ≤ count_if (unmarked kind) db.bookings
unfolding due_reminder scan_and_send
scan_and_send_once [] db kind = omega arith
scan_and_send_once ((deliver, now) ∷ vs) db kind = omega (
  arith,
  visit-step kind deliver now db.bots db.bookings,
  scan_and_send_once vs (after (deliver, now) db) kind,
)
