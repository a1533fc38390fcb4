-- ===== src/Utils/Normal.antt =====
-- `normalize_ethiopian_phone` of app/utils/phone.py on its own results.
use ethiogram.Base.{
  ℕ, ◌≡◌, refl, ap, Option, none, if◌then◌else◌, inl, inr, Bool-cases, true, false, Bool, ◌||◌, not,
  Option, none, some, [], ◌∷◌, keep, length, nat_eq, All,
}
use ethiogram.Base.Texts.{Text}
use ethiogram.Utils.{
  is_mobile, after_country, after_zero, local_part, to_e164, validated, normalize_ethiopian_phone,
}

module _ (is_digit : ℕ → Bool) where
  abbrev AreDigits : Text → Type 0
  AreDigits s = All (λ c. is_digit c ≡ true) s

  keep-AreDigits : (s : Text) → AreDigits (keep is_digit s)
  keep-AreDigits [] = tt
  keep-AreDigits (c ∷ s) = elim (Bool-cases (is_digit c)) [
    | inl kept ↦ rw kept (kept, keep-AreDigits s)
    | inr left ↦ rw left (keep-AreDigits s)
  ]

  keep_all : (s : Text) → AreDigits s → keep is_digit s ≡ s
  keep_all [] h = refl
  keep_all (c ∷ s) h = rw h.0 (ap (λ t. c ∷ t) (keep_all s h.1))

  abbrev Found : Option Text → Type 0
  Found none = Unit
  Found (some s) = AreDigits s

  if-Found : (b : Bool) (s : Text) → AreDigits s → Found (if b then some s else none)
  if-Found true s h = h
  if-Found false s h = tt

  after_country-Found : (s : Text) → AreDigits s → Found (after_country s)
  after_country-Found [] h = tt
  after_country-Found (a ∷ []) h = tt
  after_country-Found (a ∷ b ∷ []) h = tt
  after_country-Found (a ∷ b ∷ c ∷ s) h = if-Found _ s h.1.1.1

  after_zero-Found : (s : Text) → AreDigits s → Found (after_zero s)
  after_zero-Found [] h = tt
  after_zero-Found (a ∷ s) h = if-Found _ s h.1

  local_part-Found : (s : Text) → AreDigits s → Found (local_part s)
  local_part-Found s h =
      cases (after_country s) (after_zero s) (after_country-Found s h) (after_zero-Found s h)
    where
      cases :
          (x y : Option Text)
          → Found x
          → Found y
          → Found (elim x [
            | some s ↦ some s
            | none ↦ elim y [
              | some s ↦ some s
              | none ↦ if nat_eq (length s) 9 then some s else none
            ]
          ])
      cases (some t) y f g = f
      cases none (some t) f g = g
      cases none none f g = if-Found (nat_eq (length s) 9) s h

  -- What is returned has nine digits behind the code, of which the first is a mobile network's.
  validated-some :
      (o : Option Text) (p : Text)
      → Found o
      → validated o ≡ some p
      → (s : Text) × (p ≡ to_e164 s)
        × AreDigits s
        × (nat_eq (length s) 9 ≡ true)
        × (is_mobile s ≡ true)
  validated-some none p f e = cc
  validated-some (some s) p f e =
      let (nine, mobile, shape) = passed (nat_eq (length s) 9) (is_mobile s) e in
      (s, shape, f, nine, mobile)
    where
      passed :
          (n m : Bool)
          → (if not n || not m then none else some (to_e164 s)) ≡ some p
          → (n ≡ true) × (m ≡ true) × (p ≡ to_e164 s)
      passed true true e = (refl, refl, cc)
      passed true false e = cc
      passed false m e = cc

  normal_form :
      (s : Text)
      → nat_eq (length s) 9 ≡ true
      → is_mobile s ≡ true
      → validated (local_part (b'2' ∷ b'5' ∷ b'1' ∷ s)) ≡ some (to_e164 s)
  normal_form s nine mobile =
      let country : local_part (b'2' ∷ b'5' ∷ b'1' ∷ s) ≡ some s = rw (local_part, nine) refl in
      rw country (rw (validated, nine, mobile) refl)

-- What the function returns for a text, it returns for that result as well, if `2`, `5` and `1` are
-- digits and `+` is none.
pub normalize_ethiopian_phone_again :
    (is_digit : ℕ → Bool) (raw p : Text)
    → is_digit b'+' ≡ false
    → is_digit b'2' ≡ true
    → is_digit b'5' ≡ true
    → is_digit b'1' ≡ true
    → normalize_ethiopian_phone is_digit raw ≡ some p
    → normalize_ethiopian_phone is_digit p ≡ some p
unfolding normalize_ethiopian_phone
normalize_ethiopian_phone_again is_digit [] p plus two five one e = cc
normalize_ethiopian_phone_again is_digit (c ∷ raw) p plus two five one e =
    let digits = keep-AreDigits is_digit (c ∷ raw) in
    let (s, shape, numeric, nine, mobile) =
      validated-some is_digit (local_part (keep is_digit (c ∷ raw))) p
        (local_part-Found is_digit (keep is_digit (c ∷ raw)) digits) e in
    rw shape (
      rw (plus, two, five, one)
        (rw (keep_all is_digit s numeric) (normal_form is_digit s nine mobile)))
