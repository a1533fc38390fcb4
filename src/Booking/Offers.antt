-- ===== src/Booking/Offers.antt =====
-- `available_slots` of app/services/booking_service.py against `create_booking`, and the overlap of
-- confirmed bookings.
use ethiogram.Base.{
  ℕ, ◌+◌, ◌≤◌, ◌<◌, ◌≡◌, refl, Bool, true, false, ◌&&◌, Option, none, some, List, [], ◌∷◌, inl, inr,
  ◌⊎◌, arith, All, keep, find_first, nat_eq, ltb, Bool-cases, Option-cases,
}
use mathlib.Core.Path.{subst}
use ethiogram.Base.Sequences.{All-IsIn, IsIn}
use ethiogram.Models.{World, Booking}
use ethiogram.Request.{ok}
use ethiogram.Booking.{
  Slot, hours, conflicts, ConciergeData, available_slots, BookingRequest, create_booking, overlaps,
  new_booking, is_confirmed, busy_times, starts_within, book_unless,
}
use ethiogram.Booking.Overlap.{available_slots_lem, booking_config-IsValid}

module _ (to_utc : ℕ → ℕ) (business_id : ℕ) (midnight : ℕ) (cd : ConciergeData) (num_slots : ℕ)
    (now : Option ℕ) (duration_minutes : Option ℕ) where
  -- The bookings of this business that begin before the day end before it.
  abbrev EndsInTime : Booking → Type 0
  EndsInTime b =
      nat_eq b.business_id business_id && is_confirmed b ≡ true
      → b.starts_at < to_utc midnight
      → b.ends_at ≤ to_utc midnight

  abbrev IsForSlot : BookingRequest → Slot → Type 0
  IsForSlot r slot =
      (r.business_id ≡ business_id)
      × (r.starts_at ≡ to_utc slot.start)
      × (r.ends_at ≡ to_utc slot.end)

  no_overlap :
      (bs : List Booking) (r : BookingRequest) (slot : Slot)
      → IsForSlot r slot
      → to_utc midnight ≤ to_utc slot.start
      → to_utc slot.end ≤ to_utc (midnight + hours 24)
      → All EndsInTime bs
      → conflicts to_utc
          (busy_times
            (keep (starts_within business_id (to_utc midnight) (to_utc (midnight + hours 24))) bs))
          slot.start
          slot.end
        ≡ false
      → find_first (overlaps r) bs ≡ none
  no_overlap [] r slot i low high e c = refl
  no_overlap (b ∷ bs) r slot i low high e c =
      let rest = no_overlap bs r slot i low high e.1 in
      let this = e.0 in
      elim (Bool-cases
        (starts_within business_id (to_utc midnight) (to_utc (midnight + hours 24)) b)) [
          | inl within ↦ (let c' = rw within at c in ground arith)
          | inr without ↦ (let c' = rw without at c in ground arith)
        ]

  -- Where the zone's clock does not go back, and no confirmed booking of the business lasts over
  -- midnight into the day, `create_booking` accepts a request for the instants of any slot that
  -- `available_slots` offers, in the database that it offered them from.
  pub available_slots-create_booking :
      (w : World) (slots : List Slot) (slot : Slot) (r : BookingRequest)
      → ((a b : ℕ) → a ≤ b → to_utc a ≤ to_utc b)
      → All EndsInTime w.db.bookings
      → available_slots to_utc 1440 business_id cd midnight num_slots now duration_minutes w.db
        ≡ some slots
      → IsIn slot slots
      → IsForSlot r slot
      → (create_booking r w).0 ≡ ok (some (new_booking w.db.next_id r))
  unfolding create_booking
  available_slots-create_booking w slots slot r mono e offered mem i =
      let (ss, same, short, open_all) =
        available_slots_lem to_utc business_id cd midnight num_slots now duration_minutes w 1440
          (omega arith) in
      let slots_eq : ss ≡ slots = cc in
      let valid = booking_config-IsValid cd in
      let this = All-IsIn _ slots (subst (All _) slots_eq open_all) mem in
      let free =
        no_overlap w.db.bookings r slot i
          (mono midnight slot.start (omega (arith, this.after_opening)))
          (mono slot.end (midnight + hours 24)
            (omega (arith, this.before_closing, valid.last_hour)))
          e this.clear in
      rw (free, book_unless)

-- Two confirmed bookings of one business that share time.
abbrev pub clash : Booking → Booking → Bool
clash a b =
    nat_eq a.business_id b.business_id
    && (is_confirmed a
        && is_confirmed b
        && (ltb a.starts_at b.ends_at && ltb b.starts_at a.ends_at))

-- No two confirmed bookings of one business share time.
abbrev pub IsDisjoint : List Booking → Type 0
IsDisjoint [] = Unit
IsDisjoint (b ∷ bs) = All (λ c. clash b c ≡ false) bs × IsDisjoint bs

new_booking-apart :
    (id : ℕ) (r : BookingRequest) (bs : List Booking)
    → find_first (overlaps r) bs ≡ none
    → All (λ c. clash (new_booking id r) c ≡ false) bs
new_booking-apart id r [] e = tt
new_booking-apart id r (b ∷ bs) e = (ground arith, new_booking-apart id r bs (ground arith))

-- Whatever is asked for, no two confirmed bookings of one business share time afterwards if none did
-- before. The request is refused, and nothing changes, if a confirmed booking of the business shares
-- time with it, and else it becomes the newest booking, confirmed.
pub create_booking_lem :
    (r : BookingRequest) (w : World)
    → IsDisjoint w.db.bookings
    → let (result, w') = create_booking r w in
      IsDisjoint w'.db.bookings
      × (((b : Booking) × (find_first (overlaps r) w.db.bookings ≡ some b)
            × (result ≡ ok none)
            × (w' ≡ w))
          ⊎ ((find_first (overlaps r) w.db.bookings ≡ none)
              × (result ≡ ok (some (new_booking w.db.next_id r)))
              × (w'.db.bookings ≡ new_booking w.db.next_id r ∷ w.db.bookings)))
unfolding create_booking
create_booking_lem r w h = elim (Option-cases (find_first (overlaps r) w.db.bookings)) [
  | inl free ↦
      rw (free, book_unless)
        ((new_booking-apart w.db.next_id r w.db.bookings free, h), inr (refl, refl, refl))
  | inr (b, taken) ↦ rw (taken, book_unless) (h, inl (b, refl, refl, refl))
]
