-- ===== src/Messages/Once.antt =====
-- Each update of a bot is handled at most once by `telegram_webhook` in app/api/webhooks.py, however often
-- Telegram sends it.
use ethiogram.Base.{
  ℕ, ◌≡◌, refl, ◌∙◌, find_first, Bool, true, false, not, ◌&&◌, ◌⊎◌, Option, none, some, inl, inr,
  arith, Bool-cases, Option-cases, if◌then◌else◌, String,
}
use ethiogram.Base.Int.{ℤ}
use ethiogram.Models.{World, Bot, Business, Conversation, is_suspended, AlertType}
use ethiogram.Request.{ok, pure}
use ethiogram.Metering.{get_balance, find_wallet}
use ethiogram.Messages.{
  Payer, Block, Envelope, Reply, Update, Services, find_bot, is_marked, mark_update, record_reply,
  note_reply, note_cost, alert, charge_etg, reply_cost, model_price, bill_reply, settle_wallet,
  check_wallet_alerts, raise_alert, bot_should_block, handle_zero_balance,
  get_or_create_conversation, ensure_conversation, is_customer, telegram_webhook, answer, decided,
  receive_envelope, admit, signed, Spent,
}
use ethiogram.Messages.Keeps.{Keeps, Steps, unless-Keeps, bind-Keeps, admit-Keeps}

-- The mark of an update of a bot.
abbrev pub IsMarked : ℕ → ℕ → World → Type 0
IsMarked b k w = is_marked b k w.redis.updates ≡ true

-- The flows that the pipeline calls drop no mark.
pub record KeepsMarks (services : Services) (b k : ℕ) : Type 0 where
  pub platform :
      (e : Envelope) (w : World) → IsMarked b k w → IsMarked b k (services.platform_menu e w)
  pub add_product : (e : Envelope) (bot : Bot) → Keeps (IsMarked b k) (services.add_product e bot)
  pub owner_menu : (e : Envelope) (bot : Bot) → Keeps (IsMarked b k) (services.owner_menu e bot)
  pub booking :
      (e : Envelope) (bot : Bot) (c : Conversation)
      → Keeps (IsMarked b k) (services.booking e bot c)
  pub process_message :
      (e : Envelope) (c : Conversation) → Keeps (IsMarked b k) (services.process_message e c)

-- The steps of the pipeline write the marks nowhere but in the guard.
get_balance-updates : (b : ℕ) (w : World) → (get_balance b w).1.redis.updates ≡ w.redis.updates
unfolding get_balance
get_balance-updates b w = ground arith

bill_reply-updates :
    (payer : Payer) (cost : ℕ) (b : Business) (id bot_id : ℕ) (s : Spent) (w : World)
    → (bill_reply b id bot_id s payer cost w).redis.updates ≡ w.redis.updates
bill_reply-updates payer cost b id bot_id s w = elim (Option-cases (find_wallet b.id w.db)) [
  | inl missing ↦ rw (missing, settle_wallet) refl
  | inr (t, found) ↦ rw (found, settle_wallet) refl
]

reply_cost-updates :
    (m : String) (i o : ℕ) (w : World) → (reply_cost m i o w).1.redis.updates ≡ w.redis.updates
unfolding reply_cost model_price
reply_cost-updates m i o w = ground arith

raise_alert-updates :
    (b : ℕ) (v : ℤ) (bot : Bot) (now : ℕ) (level : Option AlertType) (w : World)
    → (raise_alert b v bot now level w).redis.updates ≡ w.redis.updates
raise_alert-updates b v bot now none w = refl
raise_alert-updates b v bot now (some level) w = refl

alert-updates :
    (bot : Bot) (now : ℕ) (w : World) → (alert bot now w).redis.updates ≡ w.redis.updates
unfolding alert check_wallet_alerts
alert-updates bot now w =
    let (v, w') = get_balance bot.business_id w in
    raise_alert-updates bot.business_id v bot now _ w' ∙ get_balance-updates bot.business_id w

charge_etg-updates :
    (b : Business) (id bot_id : ℕ) (s : Spent) (payer : Payer) (w : World)
    → (charge_etg b id bot_id s payer w).1.redis.updates ≡ w.redis.updates
unfolding charge_etg
charge_etg-updates b id bot_id s payer w =
    let (cost, w') = reply_cost s.model_id s.input_tokens s.output_tokens w in
    bill_reply-updates payer cost b id bot_id s w'
    ∙ reply_cost-updates s.model_id s.input_tokens s.output_tokens w

record_reply-updates :
    (e : Envelope) (bot : Bot) (b : Business) (c : Conversation) (payer : Payer) (r : Reply)
    (now : ℕ) (w : World)
    → (record_reply e bot b c payer r now w).redis.updates ≡ w.redis.updates
unfolding record_reply
record_reply-updates e bot b c payer r now w =
    let w₁ : World = record w { db = note_reply e bot c r now w.db } in
    let (cost, w₂) = charge_etg b c.id bot.id r.spent payer w₁ in
    alert-updates bot now (record w₂ { db = note_cost bot c cost w₂.db })
    ∙ charge_etg-updates b c.id bot.id r.spent payer w₁

module _ (services : Services) (now b k : ℕ) (keeps : KeepsMarks services b k) where
  answer-IsMarked :
      (e : Envelope) (bot : Bot) (business : Business) (c : Conversation) (payer : Payer)
      → Keeps (IsMarked b k) (answer services e bot business c payer now)
  answer-IsMarked e bot business c payer =
      bind-Keeps (IsMarked b k) (services.process_message e c) _ (keeps.process_message e c)
        (λ r. recorded r (services.sends e r.text))
    where
      recorded :
          (r : Reply) (sent : Bool)
          → Keeps (IsMarked b k) (
              if sent then (λ w. (ok tt, record_reply e bot business c payer r now w)) else pure tt)
      recorded r true w h = rw (record_reply-updates e bot business c payer r now w) h
      recorded r false w h = h

  decided-IsMarked :
      (e : Envelope) (bot : Bot) (business : Business) (c : Conversation) (payer : Payer)
      (block : Option Block)
      → Keeps (IsMarked b k) (decided services e bot business c now payer block)
  decided-IsMarked e bot business c payer (some block) w h = h
  decided-IsMarked e bot business c payer none w h =
      unless-Keeps (IsMarked b k) (services.booking e bot c) _ (keeps.booking e bot c)
        (answer-IsMarked e bot business c payer) w h

  handle_zero_balance-updates :
      (bot : Bot) (w : World) → (handle_zero_balance bot now w).redis.updates ≡ w.redis.updates
  unfolding handle_zero_balance
  handle_zero_balance-updates bot w = ground arith

  bot_should_block-updates :
      (bot : Bot) (w : World) → (bot_should_block bot w).1.redis.updates ≡ w.redis.updates
  unfolding bot_should_block
  bot_should_block-updates bot w = ground arith

  get_or_create-updates :
      (bot : Bot) (e : Envelope) (w : World)
      → (get_or_create_conversation bot e w).1.redis.updates ≡ w.redis.updates
  unfolding get_or_create_conversation
  get_or_create-updates bot e w = go (find_first (is_customer bot e) w.db.conversations)
    where
      go :
          (o : Option Conversation)
          → (ensure_conversation bot e o w).1.redis.updates ≡ w.redis.updates
      go none = refl
      go (some c) = refl

  IsMarked-steps : Steps services now (IsMarked b k)
  IsMarked-steps = record {
    platform = keeps.platform;
    add_product = keeps.add_product;
    owner_menu = keeps.owner_menu;
    mark = λ b' k' w h. ground arith;
    block = λ bot w h. rw (bot_should_block-updates bot w) h;
    balance = λ b' w h. rw (get_balance-updates b' w) h;
    starve = λ bot w h. rw (handle_zero_balance-updates bot w) h;
    create = λ bot e w h. rw (get_or_create-updates bot e w) h;
    speak = λ id language w h. h;
    bill = λ e bot business c w h. decided-IsMarked e bot business _ _ _ _ h;
  }

  receive-IsMarked :
      (u : Update) (e : Envelope) (bot : Bot) (w : World)
      → IsMarked b k w
      → IsMarked b k ((if services.decrypts bot then admit services e bot now else pure tt) w).1
  receive-IsMarked u e bot w h = either (services.decrypts bot)
    where
      either :
          (opens : Bool) → IsMarked b k ((if opens then admit services e bot now else pure tt) w).1
      either true = admit-Keeps services now (IsMarked b k) IsMarked-steps e bot w h
      either false = h

IsMarked-self : (b k : ℕ) (w : World) → IsMarked b k (mark_update b k w)
IsMarked-self b k w = ground arith

-- Either a request changes nothing, or its update is marked afterwards.
receive-marks :
    (services : Services) (u : Update) (bot : Bot) (now k : ℕ) (o : Option Envelope) (w : World)
    → KeepsMarks services bot.id k
    → u.update_id ≡ some k
    → (receive_envelope services u bot now o w ≡ (ok tt, w))
      ⊎ IsMarked bot.id k (receive_envelope services u bot now o w).1
receive-marks services u bot now k none w keeps id = inl refl
receive-marks services u bot now k (some e) w keeps id =
    elim (Bool-cases (signed bot u && not (is_suspended bot.status))) [
      | inr refused ↦ inl (rw refused refl)
      | inl passes ↦ (elim (Bool-cases (is_marked bot.id k w.redis.updates)) [
        | inl old ↦ inl (rw passes (rw id (rw old refl)))
        | inr new ↦ inr (
            rw passes (
              rw id (
                rw new (
                  receive-IsMarked services now bot.id k keeps u e bot (mark_update bot.id k w)
                    (IsMarked-self bot.id k w)))))
      ])
    ]

-- An update that is marked is dropped.
receive_marked :
    (services : Services) (u : Update) (bot : Bot) (now k : ℕ) (o : Option Envelope) (w : World)
    → u.update_id ≡ some k
    → IsMarked bot.id k w
    → receive_envelope services u bot now o w ≡ (ok tt, w)
receive_marked services u bot now k none w id h = refl
receive_marked services u bot now k (some e) w id h =
    elim (Bool-cases (signed bot u && not (is_suspended bot.status))) [
      | inr refused ↦ rw refused refl
      | inl passes ↦ rw passes (rw id (rw h refl))
    ]

-- Of two requests with the same update for the same bot, sent at any times, in any state of the
-- database and with any signature, at most one does anything, if the first one's mark (where it left
-- one) is still there at the second and no flow that the pipeline calls drops marks.
pub telegram_webhook_once :
    (services : Services) (u u' : Update) (now now' k : ℕ) (w w' : World) {bot bot' : Bot}
    → KeepsMarks services bot.id k
    → services.is_master u.token_hash ≡ false
    → u'.token_hash ≡ u.token_hash
    → u.update_id ≡ some k
    → u'.update_id ≡ some k
    → find_bot u.token_hash w.db ≡ some bot
    → find_bot u.token_hash w'.db ≡ some bot'
    → bot'.id ≡ bot.id
    → (IsMarked bot.id k (telegram_webhook services u now w).1 → IsMarked bot.id k w')
    → (telegram_webhook services u now w ≡ (ok tt, w))
      ⊎ (telegram_webhook services u' now' w' ≡ (ok tt, w'))
unfolding telegram_webhook
telegram_webhook_once services u u' now now' k w w' {bot} {bot'} keeps other same_bot id id' found
      found' same stays =
    elim (receive-marks services u bot now k u.envelope w keeps id) [
      | inl nothing ↦ inl (rw other (rw found nothing))
      | inr marked ↦ inr (
          rw same_bot (
            rw other (
              rw found' (
                receive_marked services u' bot' now' k u'.envelope w' id'
                  (rw same (stays (rw other (rw found marked))))))))
    ]
