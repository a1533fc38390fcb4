-- ===== src/Transfers/Recipient.antt =====
-- How app/api/transfers.py names the recipient of a transfer.
use ethiogram.Base.{
  ℕ, String, Bool, false, not, ◌||◌, Option, none, some, List, [], ◌∷◌, keep, nat_eq, ◌==◌,
  eq_string, eq_nat, contains, if◌then◌else◌,
}
use ethiogram.Base.Texts.{
  eq_text, Text, drop_while, strip, isdigit, after_last, parse_int, decimal_text,
}
use ethiogram.Models.{User, BusinessTransfer, Error}
use ethiogram.Request.{Action, pure, raise, or_raise, raise_if, one_or_none, ◌>>=◌, ◌>>◌}

-- What Python's `str` and the database know of the characters: white space, digits with the decimal
-- value that `int` gives them, `str.lower`, and the database's `lower`.
pub record Characters : Type 0 where
  pub is_space : ℕ → Bool
  pub is_digit : ℕ → Bool
  pub decimal : ℕ → Option ℕ
  pub lower : Text → Text
  pub sql_lower : Text → Text

abbrev at_sign : ℕ
at_sign = 64

abbrev full_stop : ℕ
full_stop = 46

abbrev pub transfer_kinds : List String
transfer_kinds = "telegram_username" ∷ "telegram_id" ∷ "email" ∷ []

module _ (chars : Characters) where
  abbrev normalize_username : Text → Action Text
  normalize_username value = do
    let v = chars.lower (drop_while (λ c. nat_eq c at_sign) value)
    raise_if (v == []) (Error.validation_error "Enter a Telegram username.")
    pure v

  abbrev normalize_id : Text → Action Text
  normalize_id value = do
    raise_if (not (isdigit chars.is_digit value))
        (Error.validation_error "Telegram ID must be a number.")
    pure value

  abbrev normalize_email : Text → Action Text
  normalize_email value = do
    let v = chars.lower value
    raise_if (not (contains at_sign v) || not (contains full_stop (after_last at_sign v)))
        (Error.validation_error "Enter a valid email address.")
    pure v

  unfoldable pub normalize : String → Text → Action Text
  normalize kind value =
      let v = strip chars.is_space value in
      if kind == "telegram_username"
      then normalize_username v
      else if kind == "telegram_id"
      then normalize_id v
      else if kind == "email"
      then normalize_email v
      else raise (Error.validation_error "Unknown recipient type.")

  -- Truth of an identifier: neither absent nor 0.
  abbrev pub id_text : Option ℕ → Option Text
  id_text none = none
  id_text (some n) = if nat_eq n 0 then none else some (decimal_text n)

  -- Truth of a text: neither absent nor empty.
  abbrev pub lower_text : Option Text → Option Text
  lower_text none = none
  lower_text (some s) = if s == [] then none else some (chars.lower s)

  unfoldable pub own_value : User → String → Option Text
  own_value user kind =
      if kind == "telegram_id"
      then id_text user.telegram_id
      else if kind == "telegram_username"
      then lower_text user.username
      else if kind == "email"
      then lower_text user.email
      else none

  -- `own == value`, where the left side may be None.
  abbrev pub equals : Option Text → Text → Bool
  equals none value = false
  equals (some own) value = own == value

  abbrev pub user_matches : User → BusinessTransfer → Bool
  unfolding own_value
  user_matches user t = equals (own_value user t.to_kind) t.to_value

  abbrev has_telegram_id : ℕ → User → Bool
  has_telegram_id id user = elim user.telegram_id [ none ↦ false | some i ↦ nat_eq i id ]

  abbrev sql_lower_is : Text → Option Text → Bool
  sql_lower_is value none = false
  sql_lower_is value (some s) = chars.sql_lower s == value

  abbrev resolve_id : Text → Action (Option User)
  resolve_id value = do
    id ← or_raise (parse_int chars.decimal value 0) Error.value_error
    (λ w. one_or_none (keep (has_telegram_id id) w.db.users) w)

  unfoldable pub resolve_target : String → Text → Action (Option User)
  resolve_target kind value =
      if kind == "telegram_id"
      then resolve_id value
      else if kind == "telegram_username"
      then (λ w. one_or_none (keep (λ (u : User). sql_lower_is value u.username) w.db.users) w)
      else if kind == "email"
      then (λ w. one_or_none (keep (λ (u : User). sql_lower_is value u.email) w.db.users) w)
      else pure none
