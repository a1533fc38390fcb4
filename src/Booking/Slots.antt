-- ===== src/Booking/Slots.antt =====
-- `booking_config` and `compute_free_slots` of app/services/booking_service.py. A wall-clock time of
-- the business's zone is the number of microseconds since the local midnight of a fixed day. Python
-- adds durations to such times, and compares two of one zone, on the wall clock; a comparison with
-- another zone's time is one of instants, and `to_utc` (of the package tzdata) gives the instant.
use Prim.Native.Nat.{max, min}
use ethiogram.Base.{
  ℕ, zero, suc, ◌+◌, ◌*◌, String, Bool, true, false, not, ◌&&◌, ◌||◌, Option, none, some, List, [],
  ◌∷◌, ◌++◌, length, ltb, leb, if◌then◌else◌,
}
use ethiogram.Base.Int.{ℤ, pos, negsuc}

-- A value of the Concierge's `child_data` as `int(...)` reads it: the key is missing, the conversion
-- raises `TypeError` or `ValueError`, or it gives a number.
pub data Setting : Type 0 where
  missing unreadable : Setting
  number : ℤ → Setting

pub record ConciergeData : Type 0 where
  pub timezone : Option String
  pub open_hour : Setting
  pub close_hour : Setting
  pub appointment_duration_minutes : Setting

abbrev default_open_hour : ℕ
default_open_hour = 9

abbrev default_close_hour : ℕ
default_close_hour = 17

abbrev default_duration_min : ℕ
default_duration_min = 60

-- `_int`
abbrev pub int_setting : Setting → ℕ → ℤ
int_setting Setting.missing default = pos default
int_setting Setting.unreadable default = pos default
int_setting (Setting.number z) default = z

-- `max(low, z)` for a bound that is not negative.
abbrev pub at_least : ℕ → ℤ → ℕ
at_least low (pos n) = max low n
at_least low (negsuc n) = low

pub record BookingConfig : Type 0 where
  pub open_hour : ℕ
  pub close_hour : ℕ
  pub duration : ℕ

-- The hours and the slot's length; the zone's name selects `to_utc`.
unfoldable pub booking_config : ConciergeData → BookingConfig
booking_config cd =
    let open_hour = min 23 (at_least 0 (int_setting cd.open_hour default_open_hour)) in
    record {
      open_hour = open_hour;
      close_hour = min 23 (at_least (open_hour + 1) (int_setting cd.close_hour default_close_hour));
      duration = at_least 5 (int_setting cd.appointment_duration_minutes default_duration_min);
    }

abbrev pub hours : ℕ → ℕ
hours n = n * 3600000000

abbrev pub minutes : ℕ → ℕ
minutes n = n * 60000000

-- Wall-clock times. The label is a rendering of the start.
pub record Slot : Type 0 where
  pub start : ℕ
  pub end : ℕ

module _ (to_utc : ℕ → ℕ) where
  -- `any(b0 < slot_end and b1 > cursor for (b0, b1) in norm_busy)`
  abbrev pub conflicts : List (ℕ × ℕ) → ℕ → ℕ → Bool
  conflicts [] cursor slot_end = false
  conflicts ((b0, b1) ∷ busy) cursor slot_end =
      ltb b0 (to_utc slot_end) && ltb (to_utc cursor) b1 || conflicts busy cursor slot_end

  abbrev pub in_past : Option ℕ → ℕ → Bool
  in_past none cursor = false
  in_past (some now) cursor = leb (to_utc cursor) now

  abbrev pub is_free : List (ℕ × ℕ) → Option ℕ → ℕ → ℕ → Bool
  is_free busy now cursor slot_end =
      not (in_past now cursor) && not (conflicts busy cursor slot_end)

  -- The `while`: none is a loop that has not ended within the fuel.
  unfoldable pub slot_loop :
      (fuel : ℕ) (busy : List (ℕ × ℕ)) (now : Option ℕ) (step day_end num_slots cursor : ℕ)
      (slots : List Slot)
      → Option (List Slot)
  slot_loop zero busy now step day_end num_slots cursor slots = none
  slot_loop (suc fuel) busy now step day_end num_slots cursor slots =
      let slot : Slot = record { start = cursor; end = cursor + step } in
      let slots' = if is_free busy now cursor (cursor + step) then slots ++ slot ∷ [] else slots in
      elim (leb (cursor + step) day_end && ltb (length slots) num_slots) [
        | true ↦ slot_loop fuel busy now step day_end num_slots (cursor + step) slots'
        | false ↦ some slots
      ]

  -- `midnight` is the wall clock at the start of the day.
  unfoldable pub compute_free_slots :
      (fuel midnight : ℕ) (busy : List (ℕ × ℕ))
      (open_hour close_hour duration_minutes num_slots : ℕ) (now : Option ℕ)
      → Option (List Slot)
  unfolding slot_loop
  compute_free_slots fuel midnight busy open_hour close_hour duration_minutes num_slots now =
      slot_loop fuel busy now (minutes duration_minutes) (midnight + hours close_hour) num_slots
        (midnight + hours open_hour) []
