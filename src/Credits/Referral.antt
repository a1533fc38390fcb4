-- ===== src/Credits/Referral.antt =====
-- app/services/referral_service.py: a friend's referral is parked in Redis, and paid when the friend
-- connects a bot.
use ethiogram.Base.{
  ℕ, Bool, true, false, not, ◌||◌, Option, none, some, List, [], ◌∷◌, find_first, lookup, insert,
  delete, nat_eq, ltb, ◌==◌, eq_nat, if◌then◌else◌,
}
use ethiogram.Base.Int.{pos}
use ethiogram.Base.Texts.{Text, eq_text, strip, isdigit, parse_int, decimal_text}
use ethiogram.Models.{World, Db, User, Business, Settings, numbered}
use ethiogram.Metering.{Credit, credit}
use ethiogram.Transfers.{Characters}

-- The result of an awaited call of the service, and the world that it leaves.
abbrev pub park : Text → Text → World → World
park id referrer w = record w {
  redis = record w.redis { referrals = insert id referrer w.redis.referrals };
}

abbrev pub unpark : Text → World → World
unpark id w = record w { redis = record w.redis { referrals = delete id w.redis.referrals } }

-- A key that is absent or holds the empty text is false.
abbrev pub pending : Text → World → Option Text
pending id w = elim (lookup id w.redis.referrals) [
  | none ↦ none
  | some raw ↦ if raw == [] then none else some raw
]

-- Where there is a referral already, the first referrer stays.
abbrev pub park_first : Text → Text → Option Text → World → Bool × World
park_first id referrer none w = (true, park id referrer w)
park_first id referrer (some raw) w = (false, w)

-- The identifiers are given as `str` writes them. `chars` supplies the tables of characters.
unfoldable pub capture : Characters → Text → Text → World → Bool × World
capture chars new_user referrer w =
    let new_id = strip chars.is_space new_user in
    let ref_id = strip chars.is_space referrer in
    if new_id == [] || not (isdigit chars.is_digit ref_id) || new_id == ref_id
    then (false, w)
    else park_first new_id ref_id (pending new_id w) w

-- A text of digits that is beyond the column's range makes the query raise.
abbrev pub bigint_end : ℕ
bigint_end = 9223372036854775808

abbrev pub has_telegram_id : ℕ → User → Bool
has_telegram_id id user = elim user.telegram_id [ none ↦ false | some i ↦ nat_eq i id ]

-- `order_by(Business.created_at).limit(1)`: the newest row comes first in a table.
abbrev pub find_oldest : {A : Type 0} → (A → Bool) → List A → Option A
find_oldest fits [] = none
find_oldest fits (x ∷ xs) = elim (find_oldest fits xs) [
  | none ↦ if fits x then some x else none
  | some older ↦ some older
]

abbrev pub is_owned_by : ℕ → Business → Bool
is_owned_by owner b = nat_eq b.owner_id owner

abbrev pub business_of : Db → Option User → Option Business
business_of db none = none
business_of db (some user) = find_oldest (is_owned_by user.id) db.businesses

abbrev pub bonus : ℕ → ℕ → Credit
bonus amount referrer = record {
  amount = pos amount;
  description = "Referral bonus — welcome!";
  reference_type = "bonus";
  reference_id = some (numbered "ref-in-" referrer);
  admin_id = none;
}

abbrev pub reward : ℕ → ℕ → Credit
reward amount owner = record (bonus amount owner) {
  description = "Referral bonus — a friend you invited went live";
  reference_id = some (numbered "ref-out-" owner);
}

unfoldable pub pay_referrer : ℕ → ℕ → Option Business → World → World
unfolding credit
pay_referrer amount owner none w = w
pay_referrer amount owner (some b) w = (credit b.id (reward amount owner) w).1

unfoldable pub pay_both : Settings → ℕ → ℕ → ℕ → World → World
unfolding credit pay_referrer
pay_both settings business_id owner referrer w =
    let amount = settings.etg_referral_bonus in
    let theirs = business_of w.db (find_first (has_telegram_id referrer) w.db.users) in
    pay_referrer amount owner theirs (credit business_id (bonus amount referrer) w).1

-- `int(raw)` and the query may raise, and then nothing is paid.
abbrev pub redeem_number : Settings → ℕ → ℕ → Option ℕ → World → Bool × World
redeem_number settings business_id owner none w = (false, w)
redeem_number settings business_id owner (some referrer) w =
    if ltb referrer bigint_end
    then (true, unpark (decimal_text owner) (pay_both settings business_id owner referrer w))
    else (false, w)

abbrev pub redeem_raw : Characters → Settings → ℕ → ℕ → Option Text → World → Bool × World
redeem_raw chars settings business_id owner none w = (false, w)
redeem_raw chars settings business_id owner (some raw) w =
    redeem_number settings business_id owner (parse_int chars.decimal raw 0) w

-- The texts that `capture` parks consist of digits: `int` is taken for such.
unfoldable pub redeem : Characters → Settings → ℕ → Option ℕ → World → Bool × World
redeem chars settings business_id none w = (false, w)
redeem chars settings business_id (some owner) w =
    if nat_eq owner 0
    then (false, w)
    else redeem_raw chars settings business_id owner (pending (decimal_text owner) w) w
