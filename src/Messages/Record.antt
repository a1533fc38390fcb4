-- ===== src/Messages/Record.antt =====
-- The conversation of a customer, and what a reply leaves behind, in app/api/webhooks.py.
use ethiogram.Base.{
  ℕ, ◌+◌, ◌*◌, String, Bool, ◌&&◌, Option, none, some, List, [], ◌∷◌, find_first, modify_first,
  count_if, length, nat_eq, ltb, leb, ◌==◌, eq_string, eq_nat, if◌then◌else◌,
}
use ethiogram.Base.Int.{pos}
use ethiogram.Base.Texts.{Text, eq_text}
use ethiogram.Models.{World, Db, Bot, Business, Conversation, ChatMessage, MessageRole}
use ethiogram.Request.{Action, ok, gets, modify_db}
use ethiogram.Metering.{get_balance}
use ethiogram.Messages.Policy.{Payer, is_conversation}
use ethiogram.Messages.Meter.{charge_etg}
use ethiogram.Messages.Status.{write_bot, check_wallet_alerts}
use ethiogram.Messages.Incoming.{Envelope, Reply}

abbrev pub is_customer : Bot → Envelope → Conversation → Bool
is_customer b e c = nat_eq c.bot_id b.id && c.customer_platform_id == e.customer_id

abbrev pub new_conversation : ℕ → Bot → Envelope → Conversation
new_conversation id b e = record {
  id = id;
  business_id = b.business_id;
  bot_id = b.id;
  customer_platform_id = e.customer_id;
  detected_language = "en";
  last_message_at = none;
  total_messages = 0;
  total_etg_spent = 0;
  etg_balance = pos 0;
  monthly_etg_used = 0;
  monthly_reset_at = none;
}

abbrev pub ensure_conversation : Bot → Envelope → Option Conversation → Action Conversation
ensure_conversation b e (some c) w = (ok c, w)
ensure_conversation b e none w =
    let c = new_conversation w.db.next_id b e in
    (
      ok c,
      record w {
        db = record w.db { next_id = w.db.next_id + 1; conversations = c ∷ w.db.conversations };
      },
    )

unfoldable pub get_or_create_conversation : Bot → Envelope → Action Conversation
get_or_create_conversation b e w =
    ensure_conversation b e (find_first (is_customer b e) w.db.conversations) w

-- The range U+1200 to U+137F. On doubles `count > len * 0.3` is this test, for any text that fits in
-- memory.
abbrev is_ethiopic : ℕ → Bool
is_ethiopic c = leb 4608 c && leb c 4991

abbrev count_ethiopic : Text → ℕ
count_ethiopic s = count_if is_ethiopic s

unfoldable pub detect_language : Text → String
detect_language s = if ltb (3 * length s) (10 * count_ethiopic s) then "am" else "en"

abbrev pub write_conversation : ℕ → (Conversation → Conversation) → Action Unit
write_conversation id f =
    modify_db
      (λ db. record db { conversations = modify_first (is_conversation id) f db.conversations })

-- `SQLAlchemy` keeps the object: it is read again from its row.
abbrev pub reloaded : Conversation → Option Conversation → Conversation
reloaded c none = c
reloaded c (some fresh) = fresh

abbrev pub reload : Conversation → Action Conversation
reload c = gets (λ w. reloaded c (find_first (is_conversation c.id) w.db.conversations))

abbrev pub user_message : ℕ → Text → ChatMessage
user_message id text = record {
  conversation_id = id;
  role = MessageRole.user;
  content = text;
  model_used = none;
  input_tokens = 0;
  output_tokens = 0;
}

abbrev pub assistant_message : ℕ → Reply → ChatMessage
assistant_message id r = record {
  conversation_id = id;
  role = MessageRole.assistant;
  content = r.text;
  model_used = some r.spent.model_id;
  input_tokens = r.spent.input_tokens;
  output_tokens = r.spent.output_tokens;
}

-- `if envelope.text`
abbrev with_question : ℕ → Text → List ChatMessage → List ChatMessage
with_question id [] messages = messages
with_question id (c ∷ s) messages = user_message id (c ∷ s) ∷ messages

abbrev save_messages : ℕ → Envelope → Reply → Db → Db
save_messages id e r db = record db {
  messages = assistant_message id r ∷ with_question id e.text db.messages;
}

abbrev pub count_messages : ℕ → Conversation → Conversation
count_messages now c = record c {
  total_messages = c.total_messages + 2;
  last_message_at = some now;
}

abbrev pub count_answer : ℕ → Bot → Bot
count_answer now b = record b {
  total_messages_processed = b.total_messages_processed + 1;
  last_message_at = some now;
}

-- Step 12 and the statistics: the two messages, and the counters of the conversation and of the bot.
unfoldable pub note_reply : Envelope → Bot → Conversation → Reply → ℕ → Db → Db
note_reply e b c r now db =
    let saved = save_messages c.id e r db in
    write_bot b.id (count_answer now) (record saved {
      conversations = modify_first (is_conversation c.id) (count_messages now) saved.conversations;
    })

abbrev pub spend : ℕ → Conversation → Conversation
spend cost c = record c { total_etg_spent = c.total_etg_spent + cost }

abbrev pub consume : ℕ → Bot → Bot
consume cost b = record b { total_etg_consumed = b.total_etg_consumed + cost }

unfoldable pub note_cost : Bot → Conversation → ℕ → Db → Db
note_cost b c cost db = write_bot b.id (consume cost) (record db {
  conversations = modify_first (is_conversation c.id) (spend cost) db.conversations;
})

-- Step 14, on the balance that is read again.
unfoldable pub alert : Bot → ℕ → World → World
unfolding get_balance check_wallet_alerts
alert b now w =
    let (balance, w') = get_balance b.business_id w in
    check_wallet_alerts b.business_id balance b now w'

-- Steps 12 to 14. The code also rolls back and answers 200 where one of these fails: no step of the
-- model does.
unfoldable pub record_reply :
    Envelope → Bot → Business → Conversation → Payer → Reply → ℕ → World → World
unfolding note_reply charge_etg note_cost alert
record_reply e b business c payer r now w =
    let (cost, w') =
      charge_etg business c.id b.id r.spent payer (record w { db = note_reply e b c r now w.db }) in
    alert b now (record w' { db = note_cost b c cost w'.db })
