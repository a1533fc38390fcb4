-- ===== src/Transfers/Handlers.antt =====
-- The handlers of app/api/transfers.py. `now` is the time of the request; the message to the recipient,
-- whose failure is ignored, is left out. The newest transfer stands first in the table.
use ethiogram.Base.{
  ℕ, ◌+◌, String, Bool, true, false, not, ◌&&◌, ◌||◌, Option, none, some, List, ◌∷◌, find_first,
  keep, modify_first, modify_all, nat_eq, ltb, ◌==◌, eq_string, contains, is_some, if◌then◌else◌,
}
use ethiogram.Base.Texts.{eq_text, Text, decimal_text}
use ethiogram.Models.{Db, User, Business, BusinessTransfer, Error}
use ethiogram.Request.{Action, pure, gets, modify_db, or_raise, raise_if, ◌>>=◌, ◌>>◌}
use ethiogram.Transfers.Recipient.{
  Characters, transfer_kinds, normalize, own_value, lower_text, equals, user_matches,
  resolve_target,
}

-- `_owned`
abbrev pub owned : ℕ → ℕ → Business → Bool
owned business_id user_id b =
    nat_eq b.id business_id
    && (nat_eq b.owner_id user_id && (not b.is_suspended && not (is_some b.deleted_at)))

abbrev get_owned : ℕ → ℕ → Action Business
get_owned business_id user_id = do
  found ← gets (λ w. find_first (owned business_id user_id) w.db.businesses)
  or_raise found (Error.not_found "Business")

abbrev pub is_pending : BusinessTransfer → Bool
is_pending t = t.status == "pending"

abbrev pub pending_for : ℕ → BusinessTransfer → Bool
pending_for business_id t = nat_eq t.business_id business_id && is_pending t

-- `_pending_for`
abbrev pub find_pending : ℕ → Db → Option BusinessTransfer
find_pending business_id db = find_first (pending_for business_id) db.transfers

abbrev pub cancel : ℕ → BusinessTransfer → BusinessTransfer
cancel now t = record t { status = "cancelled"; resolved_at = some now }

-- The write to the row that `_pending_for` returned, if there is one.
abbrev pub cancel_pending : ℕ → ℕ → Db → Db
cancel_pending business_id now db = record db {
  transfers = modify_first (pending_for business_id) (cancel now) db.transfers;
}

pub record TransferRequest : Type 0 where
  pub to_kind : String
  pub to_value : Text

-- Seven days, in microseconds.
abbrev pub ttl : ℕ
ttl = 604800000000

abbrev user_id_of : Option User → Option ℕ
user_id_of none = none
user_id_of (some u) = some u.id

abbrev is_user : ℕ → Option User → Bool
is_user id none = false
is_user id (some u) = nat_eq u.id id

abbrev pub new_transfer :
    (id business_id user_id : ℕ) (body : TransferRequest) (value : Text) (target : Option User)
    (now : ℕ)
    → BusinessTransfer
new_transfer id business_id user_id body value target now = record {
  id = id;
  business_id = business_id;
  from_user_id = user_id;
  to_kind = body.to_kind;
  to_value = value;
  to_user_id = user_id_of target;
  status = "pending";
  expires_at = now + ttl;
  resolved_at = none;
  resolved_by_id = none;
}

-- The cancelled predecessor, and the new row.
abbrev pub put_transfer : (business_id : ℕ) (t : ℕ → BusinessTransfer) (now : ℕ) → Db → Db
put_transfer business_id t now db =
    let cleared = cancel_pending business_id now db in
    record cleared { next_id = db.next_id + 1; transfers = t db.next_id ∷ cleared.transfers }

unfoldable pub get_transfer : ℕ → User → Action (Option BusinessTransfer)
get_transfer business_id user = do
  get_owned business_id user.id
  gets (λ w. find_pending business_id w.db)

unfoldable pub cancel_transfer : ℕ → User → ℕ → Action Unit
cancel_transfer business_id user now = do
  get_owned business_id user.id
  modify_db (cancel_pending business_id now)

abbrev pub has_id : ℕ → BusinessTransfer → Bool
has_id id t = nat_eq t.id id

abbrev pub set_status : String → BusinessTransfer → BusinessTransfer
set_status status t = record t { status = status }

abbrev pub write_transfer : ℕ → (BusinessTransfer → BusinessTransfer) → Db → Db
write_transfer id f db = record db { transfers = modify_first (has_id id) f db.transfers }

abbrev pub pending_only : Option BusinessTransfer → Option BusinessTransfer
pending_only none = none
pending_only (some t) = if is_pending t then some t else none

-- The expired row is written before the exception.
abbrev check_expiry : BusinessTransfer → ℕ → Action Unit
check_expiry t now w =
    let expired =
      (do
        modify_db (write_transfer t.id (set_status "expired"))
        raise_if true (Error.validation_error "This transfer has expired."))
        w in
    if ltb t.expires_at now then expired else pure tt w

abbrev pub not_deleted : ℕ → Business → Bool
not_deleted id b = nat_eq b.id id && not (is_some b.deleted_at)

abbrev pub resolve_as : String → ℕ → ℕ → BusinessTransfer → BusinessTransfer
resolve_as status user_id now t = record t {
  status = status;
  resolved_at = some now;
  resolved_by_id = some user_id;
}

abbrev pub accepted : ℕ → ℕ → BusinessTransfer → BusinessTransfer
accepted user_id now t = record (resolve_as "accepted" user_id now t) { to_user_id = some user_id }

abbrev pub other_pending : ℕ → ℕ → BusinessTransfer → Bool
other_pending business_id id t = pending_for business_id t && not (nat_eq t.id id)

-- The business's owner, the transfer's row, and the rows of the others that are pending.
abbrev pub accept : BusinessTransfer → ℕ → ℕ → Db → Db
accept t user_id now db =
    let written = write_transfer t.id (accepted user_id now) db in
    record written {
      businesses =
          modify_first (not_deleted t.business_id) (λ b. record b { owner_id = user_id })
            db.businesses;
      transfers = modify_all (other_pending t.business_id t.id) (cancel now) written.transfers;
    }

module _ (chars : Characters) where
  unfoldable pub initiate_transfer : ℕ → TransferRequest → User → ℕ → Action BusinessTransfer
  unfolding normalize own_value resolve_target
  initiate_transfer business_id body user now = do
    get_owned business_id user.id
    raise_if (not (contains body.to_kind transfer_kinds))
        (Error.validation_error "Choose Telegram username, Telegram ID, or email.")
    value ← normalize chars body.to_kind body.to_value
    raise_if (equals chars (own_value chars user body.to_kind) value)
        (Error.validation_error "You already own this business.")
    target ← resolve_target chars body.to_kind value
    raise_if (is_user user.id target) (Error.validation_error "You already own this business.")
    id ← gets (λ w. w.db.next_id)
    modify_db (
        put_transfer business_id (λ id. new_transfer id business_id user.id body value target now)
          now)
    pure (new_transfer id business_id user.id body value target now)

  -- One of `conds`: the kind, and the user's identifier of that kind if there is one.
  abbrev by_telegram_id : User → BusinessTransfer → Bool
  by_telegram_id user t =
      t.to_kind == "telegram_id"
      && elim user.telegram_id [ none ↦ false | some n ↦ decimal_text n == t.to_value ]

  abbrev by_lower_text : String → Option Text → BusinessTransfer → Bool
  by_lower_text kind own t = t.to_kind == kind && equals chars (lower_text chars own) t.to_value

  abbrev pub addressed_to : User → BusinessTransfer → Bool
  addressed_to user t =
      by_telegram_id user t
      || (by_lower_text "telegram_username" user.username t || by_lower_text "email" user.email t)

  -- The rows of the join: the business is not deleted, and the sender has an account.
  abbrev pub is_listed : User → ℕ → Db → BusinessTransfer → Bool
  is_listed user now db t =
      is_pending t
      && (ltb now t.expires_at
          && (is_some (find_first (not_deleted t.business_id) db.businesses)
              && (is_some (find_first (λ (u : User). nat_eq u.id t.from_user_id) db.users)
                  && addressed_to user t)))

  unfoldable pub list_incoming : User → ℕ → Action (List BusinessTransfer)
  list_incoming user now = gets (λ w. keep (is_listed user now w.db) w.db.transfers)

  unfoldable pub load_incoming : ℕ → User → ℕ → Action BusinessTransfer
  load_incoming transfer_id user now = do
    found ← gets (λ w. pending_only (find_first (has_id transfer_id) w.db.transfers))
    t ← or_raise found (Error.not_found "Transfer")
    check_expiry t now
    raise_if (not (user_matches chars user t)) Error.permission_denied
    pure t

  unfoldable pub accept_transfer : ℕ → User → ℕ → Action ℕ
  unfolding load_incoming
  accept_transfer transfer_id user now = do
    t ← load_incoming transfer_id user now
    found ← gets (λ w. find_first (not_deleted t.business_id) w.db.businesses)
    business ← or_raise found (Error.not_found "Business")
    modify_db (accept t user.id now)
    pure business.id

  unfoldable pub decline_transfer : ℕ → User → ℕ → Action Unit
  unfolding load_incoming
  decline_transfer transfer_id user now = do
    t ← load_incoming transfer_id user now
    modify_db (write_transfer t.id (resolve_as "declined" user.id now))
