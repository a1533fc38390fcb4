-- ===== src/Messages/Pipeline.antt =====
-- `telegram_webhook` of app/api/webhooks.py, from the request of Telegram to the record of the reply.
use ethiogram.Base.{
  ℕ, String, Bool, not, ◌&&◌, ◌||◌, Option, none, some, [], ◌∷◌, ◌==◌, eq_string, eq_nat,
  if◌then◌else◌,
}
use ethiogram.Base.Int.{pos, leb_ℤ}
use ethiogram.Base.Texts.{Text, eq_text, strip}
use ethiogram.Models.{World, Bot, is_grace, is_suspended, Business, Conversation}
use ethiogram.Request.{Action, ok, pure, gets, ◌>>=◌, ◌>>◌}
use ethiogram.Metering.{get_balance}
use ethiogram.Transfers.{Characters}
use ethiogram.Messages.Policy.{Payer, Block, apply_monthly_reset, decide_payer}
use ethiogram.Messages.Status.{revive, bot_should_block, handle_zero_balance}
use ethiogram.Messages.Incoming.{
  Envelope, Reply, Update, signed, find_bot, find_business, once, unless,
}
use ethiogram.Messages.Record.{
  get_or_create_conversation, write_conversation, reload, detect_language, record_reply,
}

-- What the pipeline calls: the platform's own menu, the cipher, the sub-flows that answer by themselves
-- (true where one has), the agents' answer, and Telegram's sending. `month` is as in `Policy`.
pub record Services : Type 0 where
  pub chars : Characters
  pub month : ℕ → ℕ
  pub is_master : String → Bool
  pub platform_menu : Envelope → World → World
  pub decrypts : Bot → Bool
  pub ignores_group : Envelope → Bot → World → Bool
  pub add_product : Envelope → Bot → Action Bool
  pub owner_menu : Envelope → Bot → Action Bool
  pub transcribe : Envelope → Option Envelope
  pub booking : Envelope → Bot → Conversation → Action Bool
  pub process_message : Envelope → Conversation → Action Reply
  pub sends : Envelope → Text → Bool

-- The policies under which the wallet of the business pays for its messages.
abbrev pub business_pays_cost : Business → Bool
business_pays_cost business =
    business.billing_policy == "business_pays" || business.billing_policy == "both"

module _ (services : Services) where
  -- "/balance", "balance"
  abbrev pub asks_balance : Text → Bool
  asks_balance s =
      let t = services.chars.lower (strip services.chars.is_space s) in
      t == b'/' ∷ balance_word || t == balance_word
    where
      balance_word : Text
      balance_word = b'b' ∷ b'a' ∷ b'l' ∷ b'a' ∷ b'n' ∷ b'c' ∷ b'e' ∷ []

  -- Steps 10 to 14: the answer, which is recorded where Telegram has taken it.
  abbrev pub answer : Envelope → Bot → Business → Conversation → Payer → ℕ → Action Unit
  answer e b business c payer now = do
    r ← services.process_message e c
    if services.sends e r.text
        then (λ w. (ok tt, record_reply e b business c payer r now w))
        else pure tt

  abbrev pub decided :
      Envelope → Bot → Business → Conversation → ℕ → Payer → Option Block → Action Unit
  decided e b business c now payer (some block) = pure tt
  decided e b business c now payer none =
      unless (services.booking e b c) (answer e b business c payer now)

  -- Steps 9c and 9b: who pays, and the appointment.
  abbrev pub bill : Envelope → Bot → Business → Conversation → ℕ → Action Unit
  bill e b business c now = do
    write_conversation c.id (apply_monthly_reset services.month now)
    reset ← reload c
    let (payer, block) = decide_payer business reset
    decided e b business reset now payer block

  -- Steps 9 and 9b0, where the message is a text, or its sound was understood.
  abbrev pub continue_with : Bot → Business → Conversation → ℕ → Option Envelope → Action Unit
  continue_with b business c now none = pure tt
  continue_with b business c now (some e) = do
    write_conversation c.id (λ c. record c { detected_language = detect_language e.text })
    if asks_balance e.text then pure tt else bill e b business c now

  -- Step 8, and 8b for a voice message.
  abbrev pub converse : Envelope → Bot → Business → ℕ → Action Unit
  converse e b business now = do
    c ← get_or_create_conversation b e
    continue_with b business c now (if e.is_voice then services.transcribe e else some e)

  -- Step 6: the business pays the cost, unless its customers do.
  abbrev pub gate : Envelope → Bot → Business → ℕ → Action Unit
  gate e b business now = do
    balance ← (λ w. let (balance, w') = get_balance b.business_id w in (ok balance, w'))
    if business_pays_cost business && leb_ℤ balance (pos 0)
        then (λ w. (ok tt, handle_zero_balance b now w))
        else converse e b business now

  abbrev pub is_group : Envelope → Bool
  is_group e = e.chat_type == "group" || e.chat_type == "supergroup"

  -- The sub-flows of the owner, in a private chat.
  abbrev pub serve : Envelope → Bot → Business → ℕ → Action Unit
  serve e b business now = do
    ignored ← gets (λ w. is_group e && services.ignores_group e b w)
    if ignored
        then pure tt
        else if e.chat_type == "private"
        then unless (services.add_product e b)
            (unless (services.owner_menu e b) (gate e b business now))
        else gate e b business now

  -- The join has found the business already.
  abbrev pub serve_business : Envelope → Bot → Option Business → ℕ → Action Unit
  serve_business e b none now = pure tt
  serve_business e b (some business) now = serve e b business now

  -- Step 5. A bot that has come out of grace is active from here on.
  abbrev pub awake : Bot → Bot
  awake b = if is_grace b.status then revive b else b

  abbrev pub admit : Envelope → Bot → ℕ → Action Unit
  admit e b now = do
    blocked ← (λ w. let (blocked, w') = bot_should_block b w in (ok blocked, w'))
    business ← gets (λ w. find_business b.business_id w.db)
    if blocked then pure tt else serve_business e (awake b) business now

  abbrev pub receive_envelope : Update → Bot → ℕ → Option Envelope → Action Unit
  receive_envelope u b now none = pure tt
  receive_envelope u b now (some e) =
      if signed b u && not (is_suspended b.status)
      then once b u.update_id (if services.decrypts b then admit e b now else pure tt)
      else pure tt

  -- Steps 2 to 4, the idempotency guard, and the cipher.
  abbrev pub receive : Update → Option Bot → ℕ → Action Unit
  receive u none now = pure tt
  receive u (some b) now = receive_envelope u b now u.envelope

  abbrev pub to_platform : Option Envelope → Action Unit
  to_platform none w = (ok tt, w)
  to_platform (some e) w = (ok tt, services.platform_menu e w)

  unfoldable pub telegram_webhook : Update → ℕ → Action Unit
  unfolding bot_should_block get_balance handle_zero_balance get_or_create_conversation
      detect_language apply_monthly_reset decide_payer record_reply
  telegram_webhook u now w =
      if services.is_master u.token_hash
      then to_platform u.envelope w
      else receive u (find_bot u.token_hash w.db) now w
