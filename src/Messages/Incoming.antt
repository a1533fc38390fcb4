-- ===== src/Messages/Incoming.antt =====
-- An update of app/api/webhooks.py, the bot that it is for, and the guards before it is read.
use ethiogram.Base.{
  ℕ, String, Bool, true, false, not, ◌&&◌, ◌||◌, Option, none, some, List, [], ◌∷◌, find_first,
  nat_eq, ◌==◌, eq_string, eq_nat, is_some, if◌then◌else◌,
}
use ethiogram.Base.Texts.{Text, eq_text}
use ethiogram.Models.{World, Db, Bot, Business}
use ethiogram.Request.{Action, ok, pure, ◌>>=◌}
use ethiogram.Messages.Meter.{Spent}

-- The parts of `MessageEnvelope` that the pipeline reads.
pub record Envelope : Type 0 where
  pub chat_type : String
  pub customer_id : Text
  pub text : Text
  pub is_voice : Bool

-- The envelope is none where the body is not JSON, or carries no message.
pub record Update : Type 0 where
  pub token_hash : String
  pub secret_header : String
  pub envelope : Option Envelope
  pub update_id : Option ℕ

pub record Reply : Type 0 where
  pub text : Text
  pub spent : Spent

-- `_verify_signature`
abbrev pub verify_signature : String → String → Bool
verify_signature secret provided = not (provided == "") && secret == provided

-- `if bot.webhook_secret and not _verify_signature(...)`
abbrev pub signed : Bot → Update → Bool
signed b u = elim b.webhook_secret [
  | none ↦ true
  | some secret ↦ secret == "" || verify_signature secret u.secret_header
]

abbrev is_live_business : ℕ → Business → Bool
is_live_business id b = nat_eq b.id id && not b.is_suspended && not (is_some b.deleted_at)

-- The join: a bot of a business that is neither suspended nor deleted.
abbrev pub find_bot : String → Db → Option Bot
find_bot token_hash db =
    find_first
      (λ (b : Bot).
        b.token_hash == token_hash
        && is_some (find_first (is_live_business b.business_id) db.businesses))
      db.bots

abbrev pub find_business : ℕ → Db → Option Business
find_business id db = find_first (λ (b : Business). nat_eq b.id id) db.businesses

-- `SET tg:update:<bot>:<update> NX`
abbrev pub is_marked : ℕ → ℕ → List (ℕ × ℕ) → Bool
is_marked bot_id update_id [] = false
is_marked bot_id update_id ((b, u) ∷ marks) =
    nat_eq b bot_id && nat_eq u update_id || is_marked bot_id update_id marks

abbrev pub mark_update : ℕ → ℕ → World → World
mark_update bot_id update_id w = record w {
  redis = record w.redis { updates = (bot_id, update_id) ∷ w.redis.updates };
}

-- The rest is run at most once for an update that has an id.
abbrev pub once : Bot → Option ℕ → Action Unit → Action Unit
once b none rest w = rest w
once b (some update_id) rest w =
    if is_marked b.id update_id w.redis.updates
    then (ok tt, w)
    else rest (mark_update b.id update_id w)

-- `if await flow(...): return`
abbrev pub unless : Action Bool → Action Unit → Action Unit
unless flow rest = do handled ← flow; if handled then pure tt else rest
