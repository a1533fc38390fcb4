-- ===== src/Bots/Welcome.antt =====
-- A token is connected once: `onboard_bot` of app/services/bot_onboarding.py.
use ethiogram.Base.{
  ℕ, String, ◌≡◌, refl, ◌∙◌, inl, inr, ◌⊎◌, true, none, some, Option, ◌∷◌, find_first, Bool-cases,
  Option-cases, nat_eq, ltb, eq_string,
}
use ethiogram.Base.Texts.{Text, parse_int, decimal_text}
use ethiogram.Models.{World, Bot, Business, TokenWallet, Settings, Error}
use ethiogram.Request.{ok, err}
use ethiogram.Metering.{find_wallet, credit}
use ethiogram.Metering.Totals.{credit-bots}
use ethiogram.Transfers.{Characters}
use ethiogram.Credits.{
  redeem, redeem_raw, redeem_number, pending, pay_both, pay_referrer, bonus, reward, business_of,
  has_telegram_id, bigint_end,
}
use ethiogram.Bots.{
  Telegram, onboard_bot, has_hash, belongs_to, new_bot, add_bot, welcome, greet, owner_telegram_id,
}

-- A referral's bonus leaves the bots alone.
pay_referrer-bots :
    (amount owner : ℕ) (b : Option Business) (w : World)
    → (pay_referrer amount owner b w).db.bots ≡ w.db.bots
unfolding pay_referrer
pay_referrer-bots amount owner none w = refl
pay_referrer-bots amount owner (some b) w = credit-bots b.id (reward amount owner) w

pay_both-bots :
    (settings : Settings) (b owner referrer : ℕ) (w : World)
    → (pay_both settings b owner referrer w).db.bots ≡ w.db.bots
unfolding pay_both
pay_both-bots settings b owner referrer w =
    let amount = settings.etg_referral_bonus in
    pay_referrer-bots amount owner
      (business_of w.db (find_first (has_telegram_id referrer) w.db.users))
      (credit b (bonus amount referrer) w).1
    ∙ credit-bots b (bonus amount referrer) w

module _ (chars : Characters) (settings : Settings) (b : ℕ) where
  redeem_number-bots :
      (owner : ℕ) (n : Option ℕ) (w : World)
      → (redeem_number settings b owner n w).1.db.bots ≡ w.db.bots
  redeem_number-bots owner none w = refl
  redeem_number-bots owner (some referrer) w = elim (Bool-cases (ltb referrer bigint_end)) [
    | inl small ↦ rw small (pay_both-bots settings b owner referrer w)
    | inr large ↦ rw large refl
  ]

  redeem_raw-bots :
      (owner : ℕ) (raw : Option Text) (w : World)
      → (redeem_raw chars settings b owner raw w).1.db.bots ≡ w.db.bots
  redeem_raw-bots owner none w = refl
  redeem_raw-bots owner (some raw) w = redeem_number-bots owner (parse_int chars.decimal raw 0) w

  redeem-bots :
      (owner : Option ℕ) (w : World) → (redeem chars settings b owner w).1.db.bots ≡ w.db.bots
  unfolding redeem
  redeem-bots none w = refl
  redeem-bots (some owner) w = elim (Bool-cases (nat_eq owner 0)) [
    | inl no_id ↦ rw no_id refl
    | inr known ↦ rw known (redeem_raw-bots owner (pending (decimal_text owner) w) w)
  ]

  greet-bots : (owner_id : ℕ) (w : World) → (greet chars settings b owner_id w).db.bots ≡ w.db.bots
  unfolding greet
  greet-bots owner_id w = redeem-bots (owner_telegram_id owner_id w) w

  welcome-bots :
      (bot_id : ℕ) (t : Option TokenWallet) (w : World)
      → (welcome settings bot_id b t w).db.bots ≡ w.db.bots
  welcome-bots bot_id none w = refl
  welcome-bots bot_id (some t) w = refl

module _ (telegram : Telegram) (chars : Characters) (settings : Settings) (token : String) where
  onboard_bot-taken :
      (b owner_id : ℕ) (w : World) {bot : Bot}
      → telegram.knows token ≡ true
      → find_first (has_hash (telegram.hash_bot_token token)) w.db.bots ≡ some bot
      → onboard_bot telegram chars settings token b owner_id w
        ≡ (err Error.bot_token_already_registered, w)
  unfolding onboard_bot
  onboard_bot-taken b owner_id w knows taken = rw (knows, taken) refl

  -- The world after the new bot, the bonus and the referral.
  connected : (b owner_id : ℕ) → World → World
  connected b owner_id w =
      let bot = new_bot telegram w.db.next_id b (telegram.hash_bot_token token) in
      let w₁ : World = record w { db = add_bot bot w.db } in
      greet chars settings b owner_id (welcome settings w.db.next_id b (find_wallet b w.db) w₁)

  connected-bots :
      (b owner_id : ℕ) (w : World)
      → let bot = new_bot telegram w.db.next_id b (telegram.hash_bot_token token) in
        (connected b owner_id w).db.bots ≡ bot ∷ w.db.bots
  unfolding connected
  connected-bots b owner_id w =
      let bot = new_bot telegram w.db.next_id b (telegram.hash_bot_token token) in
      let w₁ : World = record w { db = add_bot bot w.db } in
      greet-bots chars settings b owner_id (welcome settings w.db.next_id b (find_wallet b w.db) w₁)
      ∙ welcome-bots chars settings b w.db.next_id (find_wallet b w.db) w₁

  onboard_bot-succeeds :
      (b owner_id : ℕ) (w : World)
      → telegram.knows token ≡ true
      → find_first (has_hash (telegram.hash_bot_token token)) w.db.bots ≡ none
      → belongs_to owner_id b w.db ≡ true
      → telegram.takes_webhook token ≡ true
      → onboard_bot telegram chars settings token b owner_id w ≡ (
        ok (new_bot telegram w.db.next_id b (telegram.hash_bot_token token)),
        connected b owner_id w,
      )
  unfolding onboard_bot connected
  onboard_bot-succeeds b owner_id w knows free owned takes =
      rw (knows, free) (rw owned (rw takes refl))

  onboard_bot-fails :
      (b owner_id : ℕ) (w : World)
      → ((e : Error) × ((onboard_bot telegram chars settings token b owner_id w).0 ≡ err e))
        ⊎ ((telegram.knows token ≡ true)
            × (find_first (has_hash (telegram.hash_bot_token token)) w.db.bots ≡ none)
            × (belongs_to owner_id b w.db ≡ true)
            × (telegram.takes_webhook token ≡ true))
  unfolding onboard_bot
  onboard_bot-fails b owner_id w = elim (Bool-cases (telegram.knows token)) [
    | inr unknown ↦ inl (Error.bot_token_invalid, rw unknown refl)
    | inl knows ↦
        elim (Option-cases (find_first (has_hash (telegram.hash_bot_token token)) w.db.bots)) [
          | inr (bot, taken) ↦ inl (Error.bot_token_already_registered, rw (knows, taken) refl)
          | inl free ↦ elim (Bool-cases (belongs_to owner_id b w.db)) [
            | inr other ↦ inl (Error.not_found "Business", rw (knows, free) (rw other refl))
            | inl owned ↦ elim (Bool-cases (telegram.takes_webhook token)) [
              | inr refused ↦
                  inl (Error.telegram_api_error, rw (knows, free) (rw owned (rw refused refl)))
              | inl takes ↦ inr (knows, free, owned, takes)
            ]
          ]
        ]
  ]

  -- A call for a token fails, or it connects a bot with that token, and then any later call for the
  -- token fails and changes nothing, whoever makes it for whatever business.
  pub onboard_bot_once :
      (b owner_id b' owner_id' : ℕ) (w : World)
      → let (r, w') = onboard_bot telegram chars settings token b owner_id w in
        ((e : Error) × (r ≡ err e))
        ⊎ ((bot : Bot) × (r ≡ ok bot)
            × (find_first (has_hash (telegram.hash_bot_token token)) w'.db.bots ≡ some bot)
            × (onboard_bot telegram chars settings token b' owner_id' w'
                ≡ (err Error.bot_token_already_registered, w')))
  onboard_bot_once b owner_id b' owner_id' w = elim (onboard_bot-fails b owner_id w) [
    | inl failed ↦ inl failed
    | inr (knows, free, owned, takes) ↦
        let bot = new_bot telegram w.db.next_id b (telegram.hash_bot_token token) in
        let w' = connected b owner_id w in
        let found : find_first (has_hash (telegram.hash_bot_token token)) w'.db.bots ≡ some bot =
          rw (connected-bots b owner_id w) (
            rw
              ((eq_string.equal_iff (telegram.hash_bot_token token)
                  (telegram.hash_bot_token token)).1
                refl)
              refl) in
        rw (onboard_bot-succeeds b owner_id w knows free owned takes)
          (inr (bot, refl, found, onboard_bot-taken b' owner_id' w' {bot = bot} knows found))
  ]
