-- ===== src/Admin/Silence.antt =====
-- A suspended bot: `suspend_bot` of app/api/admin.py against app/api/webhooks.py and
-- app/core/metering.py.
use ethiogram.Base.{
  ℕ, String, ◌≡◌, refl, ap, ◌∙◌, true, false, Bool, none, some, List, [], ◌∷◌, inl, inr, Bool-cases,
  arith, find_first, find_first-modify_same, find_first-holds, modify_all, modify_first,
  if◌then◌else◌, Option,
}
use ethiogram.Models.{World, User, Bot, BotStatus, is_suspended, is_grace}
use ethiogram.Request.{ok}
use ethiogram.Metering.{reactivate_grace_bots, in_grace, reactivate}
use ethiogram.Messages.{
  is_bot, find_bot, Update, Envelope, Services, telegram_webhook, receive_envelope, signed,
}
use ethiogram.Admin.{suspend_bot, suspended_bot}

find_first-modify_all :
    {A : Type 0} (p q : A → Bool) (f : A → A) (xs : List A) {x : A}
    → ((y : A) → p (f y) ≡ p y)
    → find_first p xs ≡ some x
    → find_first p (modify_all q f xs) ≡ some (if q x then f x else x)
find_first-modify_all p q f [] same e = cc
find_first-modify_all p q f (y ∷ xs) {x} same e =
    ground (arith, same y, find_first-modify_all p q f xs {x = x} same)

not_in_grace :
    (b : ℕ) (bot : Bot)
    → is_suspended bot.status ≡ true
    → (if in_grace b bot then reactivate bot else bot) ≡ bot
not_in_grace b bot h = ground (arith, h, not_grace bot.status h)
  where
    not_grace : (s : BotStatus) → is_suspended s ≡ true → is_grace s ≡ false
    not_grace BotStatus.suspended e = refl
    not_grace BotStatus.active e = refl
    not_grace BotStatus.paused e = refl
    not_grace BotStatus.disconnected e = refl
    not_grace BotStatus.grace e = ground (arith, e)

receive_envelope-suspended :
    (services : Services) (u : Update) (bot : Bot) (now : ℕ) (o : Option Envelope) (w : World)
    → is_suspended bot.status ≡ true
    → receive_envelope services u bot now o w ≡ (ok tt, w)
receive_envelope-suspended services u bot now none w h = refl
receive_envelope-suspended services u bot now (some e) w h = elim (Bool-cases (signed bot u)) [
  | inl passes ↦ rw (passes, h) refl
  | inr refused ↦ rw refused refl
]

telegram_webhook-suspended :
    (services : Services) (u : Update) (now : ℕ) (w : World) (bot : Bot)
    → services.is_master u.token_hash ≡ false
    → find_bot u.token_hash w.db ≡ some bot
    → is_suspended bot.status ≡ true
    → telegram_webhook services u now w ≡ (ok tt, w)
unfolding telegram_webhook
telegram_webhook-suspended services u now w bot other found h =
    rw other (rw found (receive_envelope-suspended services u bot now u.envelope w h))

-- The world in which an admin has suspended a bot.
suspended_world : User → Bot → String → ℕ → World → World
suspended_world admin bot reason at w = record w {
  db = record w.db {
    bots = modify_first (is_bot bot.id) (suspended_bot reason at) w.db.bots;
    audit_log =
        record { admin_id = admin.id; action = "suspend_bot"; target_type = "bot" }
        ∷ w.db.audit_log;
  };
}

suspend_bot-succeeds :
    (admin : User) (bot : Bot) (reason : String) (at : ℕ) (w : World)
    → find_first (is_bot bot.id) w.db.bots ≡ some bot
    → suspend_bot admin bot.id reason at w ≡ (ok tt, suspended_world admin bot reason at w)
unfolding suspend_bot suspended_world
suspend_bot-succeeds admin bot reason at w row = rw row refl

-- After an admin has suspended a bot, the next update for it is dropped without effect, at whatever time
-- it comes, and so is one that follows a payment, which takes the bots of the business out of grace.
pub suspend_bot-telegram_webhook :
    (services : Services) (admin : User) (bot : Bot) (reason : String) (at now : ℕ) (u : Update)
    (w : World)
    → find_first (is_bot bot.id) w.db.bots ≡ some bot
    → find_bot u.token_hash w.db ≡ some bot
    → services.is_master u.token_hash ≡ false
    → let (r, w₁) = suspend_bot admin bot.id reason at w in
      let (_, paid) = reactivate_grace_bots bot.business_id w₁.db in
      (r ≡ ok tt)
      × (telegram_webhook services u now w₁ ≡ (ok tt, w₁))
      × (telegram_webhook services u now (record w₁ { db = paid })
          ≡ (ok tt, record w₁ { db = paid }))
unfolding reactivate_grace_bots suspended_world
suspend_bot-telegram_webhook services admin bot reason at now u w row named other =
    let gone = suspended_bot reason at bot in
    let w₁ = suspended_world admin bot reason at w in
    let found : find_bot u.token_hash w₁.db ≡ some gone =
      find_first-modify_same (is_bot bot.id) _ (suspended_bot reason at) w.db.bots row named
        (find_first-holds _ w.db.bots named) in
    let (_, paid) = reactivate_grace_bots bot.business_id w₁.db in
    let still : find_bot u.token_hash paid ≡ some gone =
      find_first-modify_all _ (in_grace bot.business_id) reactivate w₁.db.bots (λ y. refl) found
      ∙ ap some (not_in_grace bot.business_id gone refl) in
    rw (suspend_bot-succeeds admin bot reason at w row) (
      refl,
      telegram_webhook-suspended services u now w₁ gone other found refl,
      telegram_webhook-suspended services u now (record w₁ { db = paid }) gone other still refl,
    )
