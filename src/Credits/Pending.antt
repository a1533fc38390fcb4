-- ===== src/Credits/Pending.antt =====
-- The referral that `capture` of app/services/referral_service.py parks.
use ethiogram.Base.{
  ℕ, ◌≡◌, ◌≢◌, refl, sym, ap, ◌∙◌, inl, inr, true, false, none, some, Bool-cases, [], ◌∷◌,
  lookup-insert_self, lookup-delete_self, arith, eq_nat,
}
use ethiogram.Base.Texts.{Text, eq_text, text_equal, text_equal_iff, decimal_text, parse_int}
use ethiogram.Base.Decimals.{
  digit, ReadsDigits, IsNumeral, parse_int-decimal_text, decimal_text-IsNumeral, strip-Solid,
  isdigit-numeral,
}
use ethiogram.Models.{World}
use ethiogram.Transfers.{Characters}
use ethiogram.Credits.{capture, pending, park, unpark}

-- The ASCII digits are digits, with their values, and no white space.
pub record ReadsNumbers (chars : Characters) : Type 0 where
  pub solid : (n : ℕ) → chars.is_space (digit n) ≡ false
  pub digits : (n : ℕ) → chars.is_digit (digit n) ≡ true
  pub values : ReadsDigits chars.decimal

IsNumeral-nonempty : (Q : ℕ → Type 0) (s : Text) → IsNumeral Q s → text_equal s [] ≡ false
unfolding IsNumeral
IsNumeral-nonempty Q [] h = absurd h
IsNumeral-nonempty Q (c ∷ s) h = refl

some_inj : (m n : ℕ) → some m ≡ some n → m ≡ n
some_inj m n e = ground (arith, e)

pub pending-parked :
    (id raw : Text) (w : World) → text_equal raw [] ≡ false → pending id (park id raw w) ≡ some raw
pending-parked id raw w full =
    rw (pending, lookup-insert_self id raw w.redis.referrals) (rw full refl)

pub pending-unparked : (id : Text) (w : World) → pending id (unpark id w) ≡ none
pending-unparked id w = rw (pending, lookup-delete_self id w.redis.referrals) refl

module _ (chars : Characters) (reads : ReadsNumbers chars) where
  pub decimal_text-nonempty : (n : ℕ) → text_equal (decimal_text n) [] ≡ false
  decimal_text-nonempty n =
      IsNumeral-nonempty _ (decimal_text n)
        (decimal_text-IsNumeral (λ c. chars.is_space c ≡ false) reads.solid n)

  decimal_text-ne : (m n : ℕ) → m ≢ n → text_equal (decimal_text m) (decimal_text n) ≡ false
  decimal_text-ne m n ne = elim (Bool-cases (text_equal (decimal_text m) (decimal_text n))) [
    | inl same ↦
        let values =
          sym (parse_int-decimal_text chars.decimal reads.values m)
          ∙ ap (λ (s : Text). parse_int chars.decimal s 0)
              ((text_equal_iff (decimal_text m) (decimal_text n)).0 same)
          ∙ parse_int-decimal_text chars.decimal reads.values n in
        absurd (ne (some_inj m n values))
    | inr other ↦ other
  ]

  -- A first referral by somebody else is parked.
  pub capture_first :
      (owner referrer : ℕ) (w : World)
      → owner ≢ referrer
      → pending (decimal_text owner) w ≡ none
      → capture chars (decimal_text owner) (decimal_text referrer) w
        ≡ (true, park (decimal_text owner) (decimal_text referrer) w)
  unfolding capture
  capture_first owner referrer w ne free =
      let solid = decimal_text-IsNumeral (λ c. chars.is_space c ≡ false) reads.solid in
      let numeral = decimal_text-IsNumeral (λ c. chars.is_digit c ≡ true) reads.digits referrer in
      rw
        (
          strip-Solid chars.is_space (decimal_text owner) (solid owner),
          strip-Solid chars.is_space (decimal_text referrer) (solid referrer),
        )
        (rw
          (
            decimal_text-nonempty owner,
            isdigit-numeral chars.is_digit (decimal_text referrer) numeral,
            decimal_text-ne owner referrer ne,
          )
          (rw free refl))
