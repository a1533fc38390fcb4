-- ===== src/Messages/Keeps.antt =====
-- What each step of `telegram_webhook` in app/api/webhooks.py keeps, the whole of it keeps.
use ethiogram.Base.{
  String, ℕ, not, ◌||◌, ◌&&◌, ◌==◌, eq_string, Bool, true, false, Option, none, some, inl, inr,
  Bool-cases, if◌then◌else◌,
}
use ethiogram.Base.Int.{pos, leb_ℤ}
use ethiogram.Models.{World, is_suspended, Bot, Business, Conversation}
use ethiogram.Request.{Result, ok, err, Action, pure, continue, continue, ◌>>=◌}
use ethiogram.Metering.{get_balance}
use ethiogram.Messages.{
  Envelope, Update, Services, find_bot, once, unless, write_conversation, bot_should_block,
  handle_zero_balance, get_or_create_conversation, continue_with, asks_balance, is_group,
  serve_business, find_business, awake, receive_envelope, is_marked, mark_update, signed,
  to_platform, detect_language, telegram_webhook, bill, converse, gate, serve, admit, receive,
}

abbrev pub Keeps : (World → Type 0) → {A : Type 0} → Action A → Type 0
Keeps P m = (w : World) → P w → P (m w).1

pub bind-Keeps :
    {A B : Type 0} (P : World → Type 0) (m : Action A) (k : A → Action B)
    → Keeps P m
    → ((a : A) → Keeps P (k a))
    → Keeps P (m >>= k)
bind-Keeps {A} {B} P m k h g w p = go (m w) (h w p)
  where
    go : (r : Result A × World) → P r.1 → P (continue r k).1
    go (ok a, w) p = g a w p
    go (err e, w) p = p

pub unless-Keeps :
    (P : World → Type 0) (flow : Action Bool) (rest : Action Unit)
    → Keeps P flow
    → Keeps P rest
    → Keeps P (unless flow rest)
unless-Keeps P flow rest h g = bind-Keeps P flow _ h (λ handled. either handled)
  where
    either : (handled : Bool) → Keeps P (if handled then pure tt else rest)
    either true w p = p
    either false w p = g w p

-- The steps of the pipeline, and the flows that it calls.
pub record Steps (services : Services) (now : ℕ) (P : World → Type 0) : Type 0 where
  pub platform : (e : Envelope) (w : World) → P w → P (services.platform_menu e w)
  pub add_product : (e : Envelope) (b : Bot) → Keeps P (services.add_product e b)
  pub owner_menu : (e : Envelope) (b : Bot) → Keeps P (services.owner_menu e b)
  pub mark : (b k : ℕ) (w : World) → P w → P (mark_update b k w)
  pub block : (bot : Bot) (w : World) → P w → P (bot_should_block bot w).1
  pub balance : (b : ℕ) (w : World) → P w → P (get_balance b w).1
  pub starve : (bot : Bot) (w : World) → P w → P (handle_zero_balance bot now w)
  pub create : (bot : Bot) (e : Envelope) → Keeps P (get_or_create_conversation bot e)
  pub speak :
      (id : ℕ) (language : String)
      → Keeps P (write_conversation id (λ c. record c { detected_language = language }))
  pub bill :
      (e : Envelope) (bot : Bot) (b : Business) (c : Conversation)
      → Keeps P (bill services e bot b c now)

module _ (services : Services) (now : ℕ) (P : World → Type 0) (steps : Steps services now P) where
  continue_with-Keeps :
      (bot : Bot) (b : Business) (c : Conversation) (heard : Option Envelope)
      → Keeps P (continue_with services bot b c now heard)
  continue_with-Keeps bot b c none w h = h
  continue_with-Keeps bot b c (some e) w h =
      either (asks_balance services e.text) _ (steps.speak c.id (detect_language e.text) w h)
    where
      either : (asked : Bool) → Keeps P (if asked then pure tt else bill services e bot b c now)
      either true w h = h
      either false w h = steps.bill e bot b c w h

  converse-Keeps :
      (e : Envelope) (bot : Bot) (b : Business) → Keeps P (converse services e bot b now)
  converse-Keeps e bot b =
      bind-Keeps P (get_or_create_conversation bot e) _ (steps.create bot e)
        (λ c. continue_with-Keeps bot b c (if e.is_voice then services.transcribe e else some e))

  gate-Keeps : (e : Envelope) (bot : Bot) (b : Business) → Keeps P (gate services e bot b now)
  gate-Keeps e bot b w h =
      either
        ((b.billing_policy == "business_pays" || b.billing_policy == "both")
          && leb_ℤ (get_balance bot.business_id w).0 (pos 0))
        (get_balance bot.business_id w).1 (steps.balance bot.business_id w h)
    where
      either :
          (empty : Bool)
          → Keeps P (
              if empty
              then (λ w. (ok tt, handle_zero_balance bot now w))
              else converse services e bot b now)
      either true w h = steps.starve bot w h
      either false w h = converse-Keeps e bot b w h

  serve-Keeps : (e : Envelope) (bot : Bot) (b : Business) → Keeps P (serve services e bot b now)
  serve-Keeps e bot b w h = ignored (is_group services e && services.ignores_group e bot w) w h
    where
      own : Keeps P (
          unless
            (services.add_product e bot)
            (unless (services.owner_menu e bot) (gate services e bot b now)))
      own = unless-Keeps P (services.add_product e bot) _ (steps.add_product e bot) (
          unless-Keeps P (services.owner_menu e bot) _ (steps.owner_menu e bot)
            (gate-Keeps e bot b))

      private_chat :
          (private : Bool)
          → Keeps P (
              if private
              then unless
                  (services.add_product e bot)
                  (unless (services.owner_menu e bot) (gate services e bot b now))
              else gate services e bot b now)
      private_chat true w h = own w h
      private_chat false w h = gate-Keeps e bot b w h

      ignored :
          (ignored : Bool)
          → Keeps P (
              if ignored
              then pure tt
              else if e.chat_type == "private"
              then unless
                  (services.add_product e bot)
                  (unless (services.owner_menu e bot) (gate services e bot b now))
              else gate services e bot b now)
      ignored true w h = h
      ignored false w h = private_chat (e.chat_type == "private") w h

  serve_business-Keeps :
      (e : Envelope) (bot : Bot) (o : Option Business)
      → Keeps P (serve_business services e bot o now)
  serve_business-Keeps e bot none w h = h
  serve_business-Keeps e bot (some b) w h = serve-Keeps e bot b w h

  pub admit-Keeps : (e : Envelope) (bot : Bot) → Keeps P (admit services e bot now)
  admit-Keeps e bot w h =
      let (blocked, w') = bot_should_block bot w in either blocked w' (steps.block bot w h)
    where
      either :
          (blocked : Bool) (w : World)
          → P w
          → P
              ((if blocked
                  then pure tt
                  else serve_business services e
                      (awake services bot)
                      (find_business bot.business_id w.db)
                      now)
                w).1
      either true w h = h
      either false w h =
          serve_business-Keeps e (awake services bot) (find_business bot.business_id w.db) w h

  once-Keeps :
      (bot : Bot) (id : Option ℕ) (rest : Action Unit) → Keeps P rest → Keeps P (once bot id rest)
  once-Keeps bot none rest k w h = k w h
  once-Keeps bot (some id) rest k w h = elim (Bool-cases (is_marked bot.id id w.redis.updates)) [
    | inl marked ↦ rw marked h
    | inr new ↦ rw new (k (mark_update bot.id id w) (steps.mark bot.id id w h))
  ]

  receive_envelope-Keeps :
      (u : Update) (bot : Bot) (o : Option Envelope)
      → Keeps P (receive_envelope services u bot now o)
  receive_envelope-Keeps u bot none w h = h
  receive_envelope-Keeps u bot (some e) w h =
      guarded (signed bot u && not (is_suspended bot.status)) w h
    where
      decrypted :
          (open_token : Bool) → Keeps P (if open_token then admit services e bot now else pure tt)
      decrypted true w h = admit-Keeps e bot w h
      decrypted false w h = h

      guarded :
          (passes : Bool)
          → Keeps P (
              if passes
              then once bot u.update_id
                  (if services.decrypts bot then admit services e bot now else pure tt)
              else pure tt)
      guarded true w h = once-Keeps bot u.update_id _ (decrypted (services.decrypts bot)) w h
      guarded false w h = h

  receive-Keeps : (u : Update) (o : Option Bot) → Keeps P (receive services u o now)
  receive-Keeps u none w h = h
  receive-Keeps u (some bot) w h = receive_envelope-Keeps u bot u.envelope w h

  platform-Keeps : (o : Option Envelope) → Keeps P (to_platform services o)
  platform-Keeps none w h = h
  platform-Keeps (some e) w h = steps.platform e w h

  pub telegram_webhook-Keeps : (u : Update) → Keeps P (telegram_webhook services u now)
  unfolding telegram_webhook
  telegram_webhook-Keeps u w h = elim (Bool-cases (services.is_master u.token_hash)) [
    | inl master ↦ rw master (platform-Keeps u.envelope w h)
    | inr other ↦ rw other (receive-Keeps u (find_bot u.token_hash w.db) w h)
  ]
