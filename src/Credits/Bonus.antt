-- ===== src/Credits/Bonus.antt =====
-- The bonus of a referral: app/services/referral_service.py against the wallets.
use ethiogram.Base.{
  ℕ, ◌≡◌, ◌≢◌, ◌<◌, refl, ◌∙◌, sym, ap, inl, inr, ◌⊎◌, true, false, Bool, Option, none, some,
  Bool-cases, arith, find_first, nat_eq, ltb,
}
use ethiogram.Base.Int.{ℤ, pos, ◌+ℤ◌}
use ethiogram.Base.Texts.{Text, decimal_text, parse_int}
use ethiogram.Base.Decimals.{parse_int-decimal_text}
use ethiogram.Models.{World, User, Business, Settings}
use ethiogram.Metering.{db_balance, credit}
use ethiogram.Metering.Totals.{db_balance-credit, db_balance-credit_ne}
use ethiogram.Transfers.{Characters}
use ethiogram.Credits.{
  capture, pending, unpark, redeem, redeem_raw, redeem_number, pay_both, bonus, reward, bigint_end,
  has_telegram_id, find_oldest, is_owned_by,
}
use ethiogram.Credits.Pending.{
  ReadsNumbers, capture_first, pending-parked, pending-unparked, decimal_text-nonempty,
}

-- What the two credits leave of the wallets.
paid-balances :
    (settings : Settings) (b owner referrer : ℕ) (w : World) (user : User) (theirs : Business)
    → find_first (has_telegram_id referrer) w.db.users ≡ some user
    → find_oldest (is_owned_by user.id) w.db.businesses ≡ some theirs
    → b ≢ theirs.id
    → let w' = pay_both settings b owner referrer w in
      (db_balance b w'.db ≡ db_balance b w.db +ℤ pos settings.etg_referral_bonus)
      × (db_balance theirs.id w'.db ≡ db_balance theirs.id w.db +ℤ pos settings.etg_referral_bonus)
unfolding pay_both
paid-balances settings b owner referrer w user theirs known owns ne =
    let amount = settings.etg_referral_bonus in
    let w₁ = (credit b (bonus amount referrer) w).1 in
    rw (known) (
      rw owns (
        db_balance-credit_ne theirs.id b (reward amount owner) w₁ (λ e. ne (sym e))
            ∙ db_balance-credit b (bonus amount referrer) w,
        db_balance-credit theirs.id (reward amount owner) w₁
            ∙ ap (λ (v : ℤ). v +ℤ pos amount)
                (db_balance-credit_ne b theirs.id (bonus amount referrer) w ne),
      ))

redeem-pending :
    (chars : Characters) (settings : Settings) (b owner referrer : ℕ) (w : World)
    → ReadsNumbers chars
    → owner ≢ 0
    → referrer < bigint_end
    → pending (decimal_text owner) w ≡ some (decimal_text referrer)
    → redeem chars settings b (some owner) w
      ≡ (true, unpark (decimal_text owner) (pay_both settings b owner referrer w))
unfolding redeem
redeem-pending chars settings b owner referrer w reads some_owner small parked =
    let known : nat_eq owner 0 ≡ false = ground (arith, some_owner) in
    let fits : ltb referrer bigint_end ≡ true = ground (arith, small) in
    rw known
      (rw parked (rw (parse_int-decimal_text chars.decimal reads.values referrer) (rw fits refl)))

-- Where an owner with no referral that is pending follows the link of somebody else, the referral is
-- parked. If it is still there when the owner connects a bot, for whatever business, and the referrer
-- is a user who owns another business, then the new business and the referrer's oldest one each
-- gain the bonus, once: the referral is gone afterwards, and the owner may be referred again.
pub redeem-capture :
    (chars : Characters) (settings : Settings) (b owner referrer : ℕ) (w w₁ : World) {user : User}
    {theirs : Business}
    → ReadsNumbers chars
    → owner ≢ 0
    → owner ≢ referrer
    → referrer < bigint_end
    → pending (decimal_text owner) w ≡ none
    → find_first (has_telegram_id referrer) w₁.db.users ≡ some user
    → find_oldest (is_owned_by user.id) w₁.db.businesses ≡ some theirs
    → b ≢ theirs.id
    → let (captured, parked) = capture chars (decimal_text owner) (decimal_text referrer) w in
      let (paid, w₂) = redeem chars settings b (some owner) w₁ in
      (captured ≡ true)
      × (pending (decimal_text owner) w₁ ≡ pending (decimal_text owner) parked
          → (paid ≡ true)
            × (db_balance b w₂.db ≡ db_balance b w₁.db +ℤ pos settings.etg_referral_bonus)
            × (db_balance theirs.id w₂.db
                ≡ db_balance theirs.id w₁.db +ℤ pos settings.etg_referral_bonus)
            × (pending (decimal_text owner) w₂ ≡ none))
redeem-capture chars settings b owner referrer w w₁ {user} {theirs} reads some_owner ne small free
      known owns other =
    let first = capture_first chars reads owner referrer w ne free in
    let full = decimal_text-nonempty chars reads referrer in
    (
      ap (λ (r : Bool × World). r.0) first,
      λ stays.
          let parked : pending (decimal_text owner) w₁ ≡ some (decimal_text referrer) =
            stays
            ∙ ap (λ (r : Bool × World). pending (decimal_text owner) r.1) first
            ∙ pending-parked (decimal_text owner) (decimal_text referrer) w full in
          let balances = paid-balances settings b owner referrer w₁ user theirs known owns other in
          rw (redeem-pending chars settings b owner referrer w₁ reads some_owner small parked) (
            refl,
            balances.0,
            balances.1,
            pending-unparked (decimal_text owner) (pay_both settings b owner referrer w₁),
          ),
    )

redeem-unparked :
    (chars : Characters) (settings : Settings) (b owner : ℕ) (w : World)
    → pending (decimal_text owner) w ≡ none
    → redeem chars settings b (some owner) w ≡ (false, w)
unfolding redeem
redeem-unparked chars settings b owner w gone = elim (Bool-cases (nat_eq owner 0)) [
  | inl no_id ↦ rw no_id refl
  | inr known ↦ rw known (rw gone refl)
]

module _ (chars : Characters) (settings : Settings) (b b' owner : ℕ) (w : World) where
  abbrev PaysOnce : Bool × World → Type 0
  PaysOnce (paid, w') =
      ((paid ≡ false) × (w' ≡ w))
      ⊎ ((paid ≡ true) × (redeem chars settings b' (some owner) w' ≡ (false, w')))

  redeem_number_once : (n : Option ℕ) → PaysOnce (redeem_number settings b owner n w)
  redeem_number_once none = inl (refl, refl)
  redeem_number_once (some referrer) = elim (Bool-cases (ltb referrer bigint_end)) [
    | inl small ↦ rw small (
        inr (
          refl,
          redeem-unparked chars settings b' owner _
              (pending-unparked (decimal_text owner) (pay_both settings b owner referrer w)),
        ))
    | inr large ↦ rw large (inl (refl, refl))
  ]

  redeem_raw_once : (raw : Option Text) → PaysOnce (redeem_raw chars settings b owner raw w)
  redeem_raw_once none = inl (refl, refl)
  redeem_raw_once (some raw) = redeem_number_once (parse_int chars.decimal raw 0)

  redeem-known :
      nat_eq owner 0 ≡ false
      → redeem chars settings b (some owner) w
        ≡ redeem_raw chars settings b owner (pending (decimal_text owner) w) w
  unfolding redeem
  redeem-known known = rw known refl

  redeem-unknown : nat_eq owner 0 ≡ true → redeem chars settings b (some owner) w ≡ (false, w)
  unfolding redeem
  redeem-unknown no_id = rw no_id refl

  -- A call for an owner either pays nothing, and then changes nothing, or it pays, and a call that
  -- follows it for the same owner pays nothing and changes nothing.
  pub redeem_once :
      let (paid, w') = redeem chars settings b (some owner) w in
      ((paid ≡ false) × (w' ≡ w))
      ⊎ ((paid ≡ true) × (redeem chars settings b' (some owner) w' ≡ (false, w')))
  redeem_once = elim (Bool-cases (nat_eq owner 0)) [
    | inl no_id ↦ rw (redeem-unknown no_id) (inl (refl, refl))
    | inr known ↦ rw (redeem-known known) (redeem_raw_once (pending (decimal_text owner) w))
  ]
