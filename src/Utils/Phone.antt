-- ===== src/Utils/Phone.antt =====
-- `normalize_ethiopian_phone` of app/utils/phone.py.
use ethiogram.Base.{
  ℕ, Bool, false, ◌&&◌, ◌||◌, not, Option, none, some, [], ◌∷◌, keep, length, nat_eq, if◌then◌else◌,
}
use ethiogram.Base.Texts.{Text}

-- The leading digit 9 is Ethio Telecom's, and 7 Safaricom's.
abbrev pub is_mobile : Text → Bool
is_mobile [] = false
is_mobile (c ∷ s) = nat_eq c b'9' || nat_eq c b'7'

-- The digits behind the country code or the leading 0.
abbrev pub after_country : Text → Option Text
after_country (a ∷ b ∷ c ∷ s) =
    if nat_eq a b'2' && (nat_eq b b'5' && (nat_eq c b'1' && nat_eq (length s) 9))
    then some s
    else none
after_country _ = none

abbrev pub after_zero : Text → Option Text
after_zero [] = none
after_zero (a ∷ s) = if nat_eq a b'0' && nat_eq (length s) 9 then some s else none

abbrev pub local_part : Text → Option Text
local_part digits = elim (after_country digits) [
  | some s ↦ some s
  | none ↦ elim (after_zero digits) [
    | some s ↦ some s
    | none ↦ if nat_eq (length digits) 9 then some digits else none
  ]
]

-- `+251` and the local part.
abbrev pub to_e164 : Text → Text
to_e164 s = b'+' ∷ b'2' ∷ b'5' ∷ b'1' ∷ s

abbrev pub validated : Option Text → Option Text
validated none = none
validated (some s) =
    if not (nat_eq (length s) 9) || not (is_mobile s) then none else some (to_e164 s)

-- `is_digit` is the class `\d` of regular expressions.
unfoldable pub normalize_ethiopian_phone : (is_digit : ℕ → Bool) → Text → Option Text
normalize_ethiopian_phone is_digit [] = none
normalize_ethiopian_phone is_digit (c ∷ raw) = validated (local_part (keep is_digit (c ∷ raw)))
