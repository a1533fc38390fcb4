-- ===== src/Tests/Calendar.antt =====
-- app/services/booking_service.py for the sample market's shop, in a zone of three hours.
use ethiogram.Base.{ℕ, ◌+◌, ◌≡◌, ◌⊎◌, refl, none, some, [], ◌∷◌, inl, inr, arith, find_first}
use ethiogram.Base.Sequences.{take}
use ethiogram.Models.{World, Booking, empty_redis}
use ethiogram.Request.{ok}
use ethiogram.Booking.{
  ConciergeData, Setting, Slot, hours, booking_config, compute_free_slots, available_slots,
  BookingRequest, create_booking, new_booking, overlaps, slot_loop,
}
use ethiogram.Booking.Hours.{day_slots, compute_free_slots-eq_take}
use ethiogram.Booking.Offers.{IsDisjoint, available_slots-create_booking, create_booking_lem}
use ethiogram.Tests.Samples.{market_db}

-- The instant of a wall-clock time, counted from an earlier midnight.
abbrev addis : ℕ → ℕ
addis t = t + hours 21

abbrev concierge_data : ConciergeData
concierge_data = record {
  timezone = none;
  open_hour = Setting.missing;
  close_hour = Setting.unreadable;
  appointment_duration_minutes = Setting.missing;
}

-- Ten to eleven is taken.
abbrev taken_slot : Booking
taken_slot = record {
  id = 60;
  business_id = 10;
  conversation_id = none;
  customer_platform_id = "7";
  customer_name = none;
  customer_phone = none;
  service_name = none;
  starts_at = hours 31;
  ends_at = hours 32;
  status = "confirmed";
  price = none;
  notes = none;
  source = "telegram";
  calendar_event_id = none;
  reminder_24h_sent_at = none;
  reminder_1h_sent_at = none;
}

abbrev diary : World
diary = record { db = record market_db { bookings = taken_slot ∷ [] }; redis = empty_redis }

abbrev nine : Slot
nine = record { start = hours 9; end = hours 10 }

abbrev eleven : Slot
eleven = record { start = hours 11; end = hours 12 }

offered_slots :
    available_slots addis 1440 10 concierge_data 0 2 none none diary.db ≡ some (nine ∷ eleven ∷ [])
unfolding available_slots booking_config compute_free_slots slot_loop
offered_slots = refl

compute_free_slots-eq_take_example :
    compute_free_slots addis 9 0 ((hours 31, hours 32) ∷ []) 9 17 60 2 none
    ≡ some (take 2 (day_slots addis 0 ((hours 31, hours 32) ∷ []) 9 17 60 none))
compute_free_slots-eq_take_example =
    compute_free_slots-eq_take addis 9 0 ((hours 31, hours 32) ∷ []) 9 17 60 2 none (omega arith)
      (omega arith) (omega arith)

abbrev request : BookingRequest
request = record {
  business_id = 10;
  customer_platform_id = "8";
  starts_at = hours 32;
  ends_at = hours 33;
  conversation_id = none;
  customer_name = none;
  customer_phone = none;
  service_name = none;
  price = none;
  source = "telegram";
  notes = none;
  calendar_event_id = none;
}

available_slots-create_booking_example :
    (create_booking request diary).0 ≡ ok (some (new_booking 1000 request))
available_slots-create_booking_example =
    available_slots-create_booking addis 10 0 concierge_data 2 none none diary (nine ∷ eleven ∷ [])
      eleven request (λ a b h. omega (arith, h)) (λ e early. omega (arith, early), tt) offered_slots
      (inr (inl refl)) (refl, refl, refl)

diary-IsDisjoint : IsDisjoint diary.db.bookings
diary-IsDisjoint = (tt, tt)

create_booking_lem_example :
    let (result, w') = create_booking request diary in
    IsDisjoint w'.db.bookings
    × (((b : Booking) × (find_first (overlaps request) diary.db.bookings ≡ some b)
          × (result ≡ ok none)
          × (w' ≡ diary))
        ⊎ ((find_first (overlaps request) diary.db.bookings ≡ none)
            × (result ≡ ok (some (new_booking 1000 request)))
            × (w'.db.bookings ≡ new_booking 1000 request ∷ diary.db.bookings)))
create_booking_lem_example = create_booking_lem request diary diary-IsDisjoint
