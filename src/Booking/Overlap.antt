-- ===== src/Booking/Overlap.antt =====
-- The window and the slots of `available_slots` in app/services/booking_service.py.
use native.Mathlib.Nat.{div-lt_iff_lt-mul}
use ethiogram.Base.{
  ℕ, ◌+◌, ◌-◌, ◌/◌, ◌≤◌, ◌<◌, ◌≡◌, Option, none, some, List, arith, All, length, keep,
}
use ethiogram.Base.Sequences.{take, length-take, All-take}
use ethiogram.Models.{World}
use ethiogram.Booking.{
  Slot, hours, minutes, booking_config, BookingConfig, ConciergeData, at_least, int_setting,
  available_slots, busy_times, starts_within, or_default,
}
use ethiogram.Booking.Hours.{IsOpen, day_slots-IsOpen, compute_free_slots-eq_take, day_slots}

-- The configured hours are hours of a day in order, with room for a slot unless the business opens at
-- 23, and a slot has five minutes at least.
pub record IsValid (cfg : BookingConfig) : Type 0 where
  pub hours_ordered : cfg.open_hour ≤ cfg.close_hour
  pub last_hour : cfg.close_hour ≤ 23
  pub room : cfg.open_hour < 23 → cfg.open_hour < cfg.close_hour
  pub shortest : 5 ≤ cfg.duration

at_least_le : (low : ℕ) (z : _) → low ≤ at_least low z
at_least_le low z = ground arith

pub booking_config-IsValid : (cd : ConciergeData) → IsValid (booking_config cd)
unfolding booking_config
booking_config-IsValid cd =
    let first : ℕ = (booking_config cd).open_hour in
    let bound = at_least_le (first + 1) (int_setting cd.close_hour 17) in
    record {
      hours_ordered = ground arith;
      last_hour = ground arith;
      room = λ h. ground arith;
      shortest = at_least_le 5 _;
    }

abbrev IsPositive : ℕ → Type 0
IsPositive n = 0 < n

or_default-IsPositive : (o : Option ℕ) (d : ℕ) → 5 ≤ d → IsPositive (or_default o d)
or_default-IsPositive none d h = omega arith
or_default-IsPositive (some n) d h = ground arith

few_slots : (room step : ℕ) → 60000000 ≤ step → room ≤ 82800000000 → room / step < 1440
few_slots room step h k = (div-lt_iff_lt-mul (omega arith)).1 (omega arith)

module _ (to_utc : ℕ → ℕ) (business_id : ℕ) (cd : ConciergeData) (midnight : ℕ) (num_slots : ℕ)
    (now : Option ℕ) (duration_minutes : Option ℕ) (w : World) where
  abbrev pub loaded : List (ℕ × ℕ)
  loaded = busy_times (
      keep (starts_within business_id (to_utc midnight) (to_utc (midnight + hours 24)))
        w.db.bookings)

  abbrev pub slot_minutes : ℕ
  slot_minutes = or_default duration_minutes (booking_config cd).duration

  -- With fuel for 1440 steps the loop ends, and returns at most `num_slots` slots. Each is inside
  -- the hours that are configured, as long as was asked for, after `now`, and clear of the day's
  -- bookings.
  pub available_slots_lem :
      (fuel : ℕ)
      → 1440 ≤ fuel
      → (slots : List Slot) × (available_slots to_utc fuel business_id cd midnight num_slots now
            duration_minutes w.db
          ≡ some slots)
        × (length slots ≤ num_slots)
        × All
            (IsOpen to_utc
              (midnight + hours (booking_config cd).open_hour)
              (midnight + hours (booking_config cd).close_hour)
              (minutes slot_minutes)
              loaded
              now)
            slots
  unfolding available_slots
  available_slots_lem fuel enough =
      let cfg : BookingConfig = booking_config cd in
      let valid : IsValid cfg = booking_config-IsValid cd in
      let positive = or_default-IsPositive duration_minutes cfg.duration valid.shortest in
      let slots : List Slot =
        day_slots to_utc midnight loaded cfg.open_hour cfg.close_hour slot_minutes now in
      (
        take num_slots slots,
        compute_free_slots-eq_take to_utc fuel midnight loaded cfg.open_hour cfg.close_hour
            slot_minutes num_slots now positive valid.hours_ordered
            (omega (
              arith,
              few_slots (hours cfg.close_hour - hours cfg.open_hour) (minutes slot_minutes)
                  (omega (arith, positive)) (omega (arith, valid.last_hour)),
            )),
        length-take num_slots slots,
        All-take _ num_slots slots (
            day_slots-IsOpen to_utc midnight loaded cfg.open_hour cfg.close_hour slot_minutes now
              positive valid.hours_ordered),
      )
