-- ===== src/Base/Decimals.antt =====
-- The decimal text of a number, as `str` writes it, is read back by `int`.
use Prim.Native.Nat.{ℕ, zero, suc, ◌+◌, ◌*◌, ◌/◌, ◌%◌, ◌<◌}
use mathlib.Core.Path.{◌≡◌, refl, sym, ap, ◌∙◌}
use mathlib.Core.Logic.{inl, inr}
use mathlib.Core.Bool.{Bool, true, false}
use mathlib.Core.Option.{Option, some}
use mathlib.Core.List.{[], ◌∷◌}
use native.Mathlib.Omega.{arith}
use ethiogram.Base.Tests.{nat_eq, Bool-cases}
use ethiogram.Base.Texts.{
  Text, decimal_text, parse_int, digits, drop_while, reverse_onto, strip, isdigit, all_of,
}

abbrev pub digit : ℕ → ℕ
digit n = 48 + n % 10

-- `decimal` gives the ASCII digits their values.
abbrev pub ReadsDigits : (ℕ → Option ℕ) → Type 0
ReadsDigits decimal = (n : ℕ) → decimal (digit n) ≡ some (n % 10)

module _ (decimal : ℕ → Option ℕ) (reads : ReadsDigits decimal) where
  parse_int-digit :
      (n : ℕ) (t : Text) → parse_int decimal (digit n ∷ t) (n / 10) ≡ parse_int decimal t n
  parse_int-digit n t =
      let whole : n / 10 * 10 + n % 10 ≡ n = omega arith in rw (parse_int, reads n) (rw whole refl)

  -- The digits of a number, before a text, are read as the number.
  parse_int-digits :
      (fuel n : ℕ) (t : Text)
      → n < fuel
      → parse_int decimal (digits fuel n t) 0 ≡ parse_int decimal t n
  parse_int-digits zero n t h = elim h [ ]
  parse_int-digits (suc fuel) n t h = elim (Bool-cases (nat_eq (n / 10) 0)) [
    | inl last ↦
        (let small : n / 10 ≡ 0 = ground arith in
          rw last (ap (parse_int decimal (digit n ∷ t)) (sym small) ∙ parse_int-digit n t))
    | inr more ↦
        rw more (parse_int-digits fuel (n / 10) (digit n ∷ t) (ground arith) ∙ parse_int-digit n t)
  ]

  pub parse_int-decimal_text : (n : ℕ) → parse_int decimal (decimal_text n) 0 ≡ some n
  parse_int-decimal_text n = parse_int-digits (suc n) n [] (omega arith)

-- A text that is not empty, and each character of which fits.
unfoldable pub IsNumeral : (ℕ → Type 0) → Text → Type 0
IsNumeral Q [] = ⊥
IsNumeral Q (c ∷ []) = Q c
IsNumeral Q (c ∷ d ∷ s) = Q c × IsNumeral Q (d ∷ s)

module _ (Q : ℕ → Type 0) where
  IsNumeral-cons : (c : ℕ) (s : Text) → Q c → IsNumeral Q s → IsNumeral Q (c ∷ s)
  unfolding IsNumeral
  IsNumeral-cons c [] h n = h
  IsNumeral-cons c (d ∷ s) h n = (h, n)

  digits-IsNumeral :
      ((n : ℕ) → Q (digit n))
      → (fuel n : ℕ) (s : Text) → IsNumeral Q s
      → IsNumeral Q (digits fuel n s)
  digits-IsNumeral q zero n s h = h
  digits-IsNumeral q (suc fuel) n s h = elim (Bool-cases (nat_eq (n / 10) 0)) [
    | inl last ↦ rw last (IsNumeral-cons (digit n) s (q n) h)
    | inr more ↦
        rw more
          (digits-IsNumeral q fuel (n / 10) (digit n ∷ s) (IsNumeral-cons (digit n) s (q n) h))
  ]

  pub decimal_text-IsNumeral : ((n : ℕ) → Q (digit n)) → (n : ℕ) → IsNumeral Q (decimal_text n)
  unfolding IsNumeral
  decimal_text-IsNumeral q n = elim (Bool-cases (nat_eq (n / 10) 0)) [
    | inl last ↦ rw last (q n)
    | inr more ↦ rw more (digits-IsNumeral q n (n / 10) (digit n ∷ []) (q n))
  ]

-- `strip` leaves a text of no white space as it is.
module _ (is_space : ℕ → Bool) where
  abbrev Solid : ℕ → Type 0
  Solid c = is_space c ≡ false

  drop_while-Solid : (s : Text) → IsNumeral Solid s → drop_while is_space s ≡ s
  unfolding IsNumeral
  drop_while-Solid [] h = refl
  drop_while-Solid (c ∷ []) h = rw h refl
  drop_while-Solid (c ∷ d ∷ s) h = rw h.0 refl

  reverse_onto-Solid :
      (s t : Text) → IsNumeral Solid s → IsNumeral Solid t → IsNumeral Solid (reverse_onto s t)
  unfolding IsNumeral
  reverse_onto-Solid [] t h g = g
  reverse_onto-Solid (c ∷ []) t h g = IsNumeral-cons Solid c t h g
  reverse_onto-Solid (c ∷ d ∷ s) t h g =
      reverse_onto-Solid (d ∷ s) (c ∷ t) h.1 (IsNumeral-cons Solid c t h.0 g)

  reversed-Solid : (s : Text) → IsNumeral Solid s → IsNumeral Solid (reverse_onto s [])
  unfolding IsNumeral
  reversed-Solid [] h = h
  reversed-Solid (c ∷ []) h = h
  reversed-Solid (c ∷ d ∷ s) h = reverse_onto-Solid (d ∷ s) (c ∷ []) h.1 h.0

  reverse_onto-twice : (s t : Text) → reverse_onto (reverse_onto s t) [] ≡ reverse_onto t s
  reverse_onto-twice [] t = refl
  reverse_onto-twice (c ∷ s) t = reverse_onto-twice s (c ∷ t)

  pub strip-Solid : (s : Text) → IsNumeral Solid s → strip is_space s ≡ s
  strip-Solid s h =
      rw (drop_while-Solid s h)
        (rw (drop_while-Solid (reverse_onto s []) (reversed-Solid s h)) (reverse_onto-twice s []))

pub isdigit-numeral :
    (is_digit : ℕ → Bool) (s : Text)
    → IsNumeral (λ c. is_digit c ≡ true) s
    → isdigit is_digit s ≡ true
unfolding IsNumeral
isdigit-numeral is_digit [] h = absurd h
isdigit-numeral is_digit (c ∷ s) h = all_digits (c ∷ s) h
  where
    all_digits : (s : Text) → IsNumeral (λ c. is_digit c ≡ true) s → all_of is_digit s ≡ true
    all_digits [] h = refl
    all_digits (c ∷ []) h = rw h refl
    all_digits (c ∷ d ∷ s) h = rw h.0 (all_digits (d ∷ s) h.1)
