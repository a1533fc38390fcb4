-- ===== src/Booking/Hours.antt =====
-- The `while` of `compute_free_slots` in app/services/booking_service.py against the day's grid of slots.
use native.Mathlib.Nat.{div-add-mod, mod-lt}
use ethiogram.Base.{
  ℕ, zero, suc, ◌+◌, ◌*◌, ◌-◌, ◌/◌, ◌%◌, ◌≤◌, ◌<◌, ◌≡◌, refl, sym, ap, ◌∙◌, Bool, true, false, ◌&&◌,
  Option, some, List, [], ◌∷◌, ◌++◌, inl, inr, arith, All, length, keep, ltb, leb, Bool-cases,
}
use ethiogram.Base.Sequences.{take, length-snoc, snoc-append, append-nil, take-nil, All-keep}
use ethiogram.Booking.{
  Slot, hours, minutes, conflicts, in_past, is_free, compute_free_slots, slot_loop,
}

-- The day's slots of one length, one after another from `cursor`.
abbrev pub grid : ℕ → ℕ → ℕ → List Slot
grid step cursor zero = []
grid step cursor (suc n) =
    record { start = cursor; end = cursor + step } ∷ grid step (cursor + step) n

-- How many slots there are from `cursor` to `day_end`.
abbrev HasRoom : ℕ → ℕ → ℕ → ℕ → Type 0
HasRoom day_end step cursor zero = day_end < cursor + step
HasRoom day_end step cursor (suc n) =
    (cursor + step ≤ day_end) × HasRoom day_end step (cursor + step) n

HasRoom-div :
    (n r step cursor day_end : ℕ)
    → day_end ≡ cursor + n * step + r
    → r < step
    → HasRoom day_end step cursor n
HasRoom-div zero r step cursor day_end e h = omega arith
HasRoom-div (suc n) r step cursor day_end e h =
    (ground arith, HasRoom-div n r step (cursor + step) day_end (grind arith) h)

module _ (to_utc : ℕ → ℕ) where
  abbrev pub fits : List (ℕ × ℕ) → Option ℕ → Slot → Bool
  fits busy now slot = is_free to_utc busy now slot.start slot.end

  slot_loop-eq_take :
      (n k fuel : ℕ) (busy : List (ℕ × ℕ)) (now : Option ℕ) (step day_end num_slots cursor : ℕ)
      (slots : List Slot)
      → n < fuel
      → length slots + k ≡ num_slots
      → HasRoom day_end step cursor n
      → slot_loop to_utc fuel busy now step day_end num_slots cursor slots
        ≡ some (slots ++ take k (keep (fits busy now) (grid step cursor n)))
  unfolding slot_loop
  slot_loop-eq_take n k zero busy now step day_end num cursor slots h e room = absurd (omega arith)
  slot_loop-eq_take zero k (suc fuel) busy now step day_end num cursor slots h e room =
      let over : leb (cursor + step) day_end ≡ false = ground arith in
      rw (over, slot_loop) (ap some (sym (rw (take-nil k) (append-nil slots))))
  slot_loop-eq_take (suc n) zero (suc fuel) busy now step day_end num cursor slots h e room =
      let full : leb (cursor + step) day_end && ltb (length slots) num ≡ false = ground arith in
      rw (full, slot_loop) (ap some (sym (append-nil slots)))
  slot_loop-eq_take (suc n) (suc k) (suc fuel) busy now step day_end num cursor slots h e room =
      let slot : Slot = record { start = cursor; end = cursor + step } in
      let more : leb (cursor + step) day_end && ltb (length slots) num ≡ true = ground arith in
      elim (Bool-cases (is_free to_utc busy now cursor (cursor + step))) [
        | inl free ↦
            rw (more, slot_loop)
              (rw free (
                slot_loop-eq_take n k fuel busy now step day_end num (cursor + step)
                  (slots ++ slot ∷ []) (omega arith) (omega (arith, length-snoc slots slot)) room.1
                ∙ ap some (snoc-append slots slot _)))
        | inr taken ↦
            rw (more, slot_loop)
              (rw taken (
                slot_loop-eq_take n (suc k) fuel busy now step day_end num (cursor + step) slots
                  (omega arith) e room.1))
      ]

  -- The slots of a day that are free, from the opening hour on.
  abbrev pub day_slots : ℕ → List (ℕ × ℕ) → ℕ → ℕ → ℕ → Option ℕ → List Slot
  day_slots midnight busy open_hour close_hour duration now = keep (fits busy now) (
      grid (minutes duration) (midnight + hours open_hour)
        ((hours close_hour - hours open_hour) / minutes duration))

  -- With a slot of at least one minute and hours that are not reversed, the loop ends (fuel above the
  -- number of slots is enough) and returns the first `num_slots` of the day's free slots.
  pub compute_free_slots-eq_take :
      (fuel midnight : ℕ) (busy : List (ℕ × ℕ)) (open_hour close_hour duration num_slots : ℕ)
      (now : Option ℕ)
      → 0 < duration
      → open_hour ≤ close_hour
      → (hours close_hour - hours open_hour) / minutes duration < fuel
      → compute_free_slots to_utc fuel midnight busy open_hour close_hour duration num_slots now
        ≡ some (take num_slots (day_slots midnight busy open_hour close_hour duration now))
  unfolding compute_free_slots
  compute_free_slots-eq_take fuel midnight busy first last duration num now pos le enough =
      let step : ℕ = minutes duration in
      let room : ℕ = hours last - hours first in
      slot_loop-eq_take (room / step) num fuel busy now step (midnight + hours last) num
        (midnight + hours first) [] enough (omega arith)
        (HasRoom-div (room / step) (room % step) step (midnight + hours first)
          (midnight + hours last) (omega (arith, div-add-mod room step))
          (mod-lt room (omega arith)))

-- Inside the opening hours, of the given length, after `now`, and clear of the busy times.
pub record IsOpen (to_utc : ℕ → ℕ) (day_start day_end step : ℕ) (busy : List (ℕ × ℕ))
    (now : Option ℕ) (slot : Slot) : Type 0 where
  pub after_opening : day_start ≤ slot.start
  pub before_closing : slot.end ≤ day_end
  pub length : slot.end ≡ slot.start + step
  pub future : in_past to_utc now slot.start ≡ false
  pub clear : conflicts to_utc busy slot.start slot.end ≡ false

abbrev IsInside : ℕ → ℕ → ℕ → Slot → Type 0
IsInside day_start day_end step slot =
    (day_start ≤ slot.start) × (slot.end ≤ day_end) × (slot.end ≡ slot.start + step)

grid-IsInside :
    (n day_start day_end step cursor : ℕ)
    → day_start ≤ cursor
    → HasRoom day_end step cursor n
    → All (IsInside day_start day_end step) (grid step cursor n)
grid-IsInside zero day_start day_end step cursor h room = tt
grid-IsInside (suc n) day_start day_end step cursor h room =
    ((h, room.0, refl), grid-IsInside n day_start day_end step (cursor + step) (omega arith) room.1)

fits-IsOpen :
    (to_utc : ℕ → ℕ) (day_start day_end step : ℕ) (busy : List (ℕ × ℕ)) (now : Option ℕ)
    (slot : Slot)
    → fits to_utc busy now slot ≡ true
    → IsInside day_start day_end step slot
    → IsOpen to_utc day_start day_end step busy now slot
fits-IsOpen to_utc day_start day_end step busy now slot h (a, b, c) = record {
  after_opening = a;
  before_closing = b;
  length = c;
  future = ground arith;
  clear = ground arith;
}

pub day_slots-IsOpen :
    (to_utc : ℕ → ℕ) (midnight : ℕ) (busy : List (ℕ × ℕ)) (first last duration : ℕ) (now : Option ℕ)
    → 0 < duration
    → first ≤ last
    → All
        (IsOpen to_utc (midnight + hours first) (midnight + hours last) (minutes duration) busy now)
        (day_slots to_utc midnight busy first last duration now)
day_slots-IsOpen to_utc midnight busy first last duration now pos le =
    let step : ℕ = minutes duration in
    let room : ℕ = hours last - hours first in
    let day_start : ℕ = midnight + hours first in
    let day_end : ℕ = midnight + hours last in
    All-keep (IsInside day_start day_end step) (IsOpen to_utc day_start day_end step busy now)
      (fits to_utc busy now) (grid step day_start (room / step))
      (fits-IsOpen to_utc day_start day_end step busy now)
      (grid-IsInside (room / step) day_start day_end step day_start (omega arith) (
        HasRoom-div (room / step) (room % step) step day_start day_end
          (omega (arith, div-add-mod room step)) (mod-lt room (omega arith))))
