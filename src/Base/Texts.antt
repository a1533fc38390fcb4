-- ===== src/Base/Texts.antt =====
-- Python's `str` as the list of its code points, for the code that takes texts apart. The tables of
-- the Unicode character database (white space, digits, lower case) are arguments.
use Prim.Native.Nat.{ℕ, zero, suc, ◌+◌, ◌*◌, ◌/◌, ◌%◌}
use mathlib.Core.Path.{◌≡◌}
use mathlib.Core.Logic.{◌↔◌}
use mathlib.Core.Bool.{Bool, true, false, ◌&&◌}
use mathlib.Core.Option.{Option, none, some}
use mathlib.Core.List.{List, [], ◌∷◌}
use native.Mathlib.Omega.{arith}
use ethiogram.Base.Tests.{nat_eq, nat_eq_iff, Comparable, eq_nat, ◌==◌, if◌then◌else◌}
use ethiogram.Base.Members.{contains}

abbrev pub Text : Type 0
Text = List ℕ

abbrev pub text_equal : Text → Text → Bool
text_equal [] [] = true
text_equal [] (d ∷ t) = false
text_equal (c ∷ s) [] = false
text_equal (c ∷ s) (d ∷ t) = nat_eq c d && text_equal s t

pub text_equal_iff : (s t : Text) → (text_equal s t ≡ true) ↔ (s ≡ t)
text_equal_iff [] [] = ground arith
text_equal_iff [] (d ∷ t) = ground arith
text_equal_iff (c ∷ s) [] = ground arith
text_equal_iff (c ∷ s) (d ∷ t) = ground (arith, text_equal_iff s t, nat_eq_iff c d)

instance abbrev pub eq_text : Comparable Text
eq_text = record { equal = text_equal; equal_iff = text_equal_iff }

-- `lstrip`, of the characters that fit.
abbrev pub drop_while : (ℕ → Bool) → Text → Text
drop_while p [] = []
drop_while p (c ∷ s) = if p c then drop_while p s else c ∷ s

abbrev pub reverse_onto : Text → Text → Text
reverse_onto [] t = t
reverse_onto (c ∷ s) t = reverse_onto s (c ∷ t)

abbrev pub strip : (ℕ → Bool) → Text → Text
strip is_space s = reverse_onto (drop_while is_space (reverse_onto (drop_while is_space s) [])) []

abbrev pub all_of : (ℕ → Bool) → Text → Bool
all_of p [] = true
all_of p (c ∷ s) = p c && all_of p s

-- `str.isdigit`: the empty text is not a number.
abbrev pub isdigit : (ℕ → Bool) → Text → Bool
isdigit is_digit [] = false
isdigit is_digit (c ∷ s) = all_of is_digit (c ∷ s)

-- `s.split(sep)[-1]`
abbrev pub after_last : ℕ → Text → Text
after_last sep [] = []
after_last sep (c ∷ s) = if contains sep s then after_last sep s else if c == sep then s else c ∷ s

-- `int(s)` of a text of digits. A character may be a digit with no decimal value, such as `²`, on
-- which `int` raises `ValueError`.
abbrev pub parse_int : (ℕ → Option ℕ) → Text → ℕ → Option ℕ
parse_int decimal [] acc = some acc
parse_int decimal (c ∷ s) acc = elim (decimal c) [
  | none ↦ none
  | some d ↦ parse_int decimal s (acc * 10 + d)
]

abbrev pub digits : ℕ → ℕ → Text → Text
digits zero n t = t
digits (suc fuel) n t =
    let rest = digits fuel (n / 10) ((48 + n % 10) ∷ t) in
    if nat_eq (n / 10) 0 then (48 + n % 10) ∷ t else rest

-- `str(n)`: a number has at most as many digits as it has units, and one more.
abbrev pub decimal_text : ℕ → Text
decimal_text n = digits (suc n) n []
