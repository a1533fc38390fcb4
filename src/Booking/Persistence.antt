-- ===== src/Booking/Persistence.antt =====
-- `available_slots` and `create_booking` of app/services/booking_service.py.
use ethiogram.Base.{
  ℕ, ◌+◌, String, Bool, ◌&&◌, Option, none, some, List, ◌∷◌, keep, find_first, map, nat_eq, ltb,
  leb, ◌==◌, eq_string, if◌then◌else◌,
}
use ethiogram.Models.{Db, Booking}
use ethiogram.Request.{Action, pure, gets, modify_db, ◌>>=◌, ◌>>◌}
use ethiogram.Booking.Slots.{ConciergeData, booking_config, Slot, hours, compute_free_slots}

abbrev pub is_confirmed : Booking → Bool
is_confirmed b = b.status == "confirmed"

-- A confirmed booking of the business that starts from `from` on and before `until`.
abbrev pub starts_within : ℕ → ℕ → ℕ → Booking → Bool
starts_within business_id from until b =
    nat_eq b.business_id business_id
    && (is_confirmed b && (leb from b.starts_at && ltb b.starts_at until))

abbrev pub busy_times : List Booking → List (ℕ × ℕ)
busy_times bs = map (λ (b : Booking). (b.starts_at, b.ends_at)) bs

-- `duration_minutes or cfg["duration"]`
abbrev pub or_default : Option ℕ → ℕ → ℕ
or_default none d = d
or_default (some n) d = if nat_eq n 0 then d else n

module _ (to_utc : ℕ → ℕ) where
  unfoldable pub available_slots :
      (fuel business_id : ℕ) (child_data : ConciergeData) (midnight num_slots : ℕ) (now : Option ℕ)
      (duration_minutes : Option ℕ) (db : Db)
      → Option (List Slot)
  unfolding booking_config compute_free_slots
  available_slots fuel business_id child_data midnight num_slots now duration_minutes db =
      let cfg = booking_config child_data in
      let rows =
        keep (starts_within business_id (to_utc midnight) (to_utc (midnight + hours 24)))
          db.bookings in
      compute_free_slots to_utc fuel midnight (busy_times rows) cfg.open_hour cfg.close_hour
        (or_default duration_minutes cfg.duration) num_slots now

-- What the caller gives of the appointment.
pub record BookingRequest : Type 0 where
  pub business_id : ℕ
  pub customer_platform_id : String
  pub starts_at : ℕ
  pub ends_at : ℕ
  pub conversation_id : Option ℕ
  pub customer_name : Option String
  pub customer_phone : Option String
  pub service_name : Option String
  pub price : Option String
  pub source : String
  pub notes : Option String
  pub calendar_event_id : Option String

abbrev pub overlaps : BookingRequest → Booking → Bool
overlaps r b =
    nat_eq b.business_id r.business_id
    && (is_confirmed b && (ltb b.starts_at r.ends_at && ltb r.starts_at b.ends_at))

abbrev pub new_booking : ℕ → BookingRequest → Booking
new_booking id r = record {
  id = id;
  business_id = r.business_id;
  conversation_id = r.conversation_id;
  customer_platform_id = r.customer_platform_id;
  customer_name = r.customer_name;
  customer_phone = r.customer_phone;
  service_name = r.service_name;
  starts_at = r.starts_at;
  ends_at = r.ends_at;
  status = "confirmed";
  price = r.price;
  notes = r.notes;
  source = r.source;
  calendar_event_id = r.calendar_event_id;
  reminder_24h_sent_at = none;
  reminder_1h_sent_at = none;
}

abbrev pub add_booking : BookingRequest → Action (Option Booking)
add_booking r = do
  id ← gets (λ w. w.db.next_id)
  modify_db (λ db. record db { next_id = id + 1; bookings = new_booking id r ∷ db.bookings })
  pure (some (new_booking id r))

abbrev pub book_unless : BookingRequest → Option Booking → Action (Option Booking)
book_unless r (some conflict) = pure none
book_unless r none = add_booking r

-- The result is none where the source returns `(None, False)`.
unfoldable pub create_booking : BookingRequest → Action (Option Booking)
create_booking r = do
  conflict ← gets (λ w. find_first (overlaps r) w.db.bookings)
  book_unless r conflict
