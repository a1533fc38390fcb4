-- ===== src/Escrow/Share.antt =====
-- `int(escrow.amount * 0.70)` of workers/escrow_release.py, on IEEE double-precision numbers. The
-- double nearest to 0.70 is 3152519739159347 / 2^52. The product of an amount with it is rounded to
-- 53 significant bits, half to even, and `int` drops the fraction.
use ethiogram.Base.{
  ℕ, zero, suc, ◌+◌, ◌*◌, ◌/◌, ◌%◌, ◌≤◌, ◌<◌, ◌≡◌, ◌∙◌, sym, refl, true, false, inl, inr, ◌⊎◌,
  arith, ltb, nat_eq, if◌then◌else◌, Bool-cases,
}
use mathlib.Core.Path.{subst}
use native.Mathlib.Nat.{div-add-mod, mod-lt, add-zero, add-suc, suc-add}

abbrev pow2 : ℕ → ℕ
pow2 zero = 1
pow2 (suc k) = 2 * pow2 k

-- 2^52, and the numerator of 0.70 over it.
abbrev pub unit_scale : ℕ
unit_scale = 4503599627370496

abbrev pub seven_tenths : ℕ
seven_tenths = 3152519739159347

-- How many units of `u` are nearest to `p`, and the even number where two are equally near.
nearest : ℕ → ℕ → ℕ
nearest u p =
    let q = p / u in
    let r = p % u in
    if ltb (2 * r) u
    then q
    else if ltb u (2 * r)
    then q + 1
    else if nat_eq (q % 2) 0
    then q
    else q + 1

abbrev round_at : ℕ → ℕ → ℕ
round_at u p = nearest u p * u

-- To 53 significant bits: the unit is doubled until `p` has at most 53 bits above it.
round_double : ℕ → ℕ → ℕ → ℕ
round_double zero k p = round_at (pow2 k) p
round_double (suc fuel) k p = elim (ltb p (2 * unit_scale * pow2 k)) [
  | true ↦ round_at (pow2 k) p
  | false ↦ round_double fuel (suc k) p
]

-- 64 doublings serve for every amount below 2^64.
unfoldable pub creator_share : ℕ → ℕ
unfolding round_double nearest
creator_share amount = round_double 64 0 (amount * seven_tenths) / unit_scale

pow2_pos : (k : ℕ) → 0 < pow2 k
pow2_pos zero = omega arith
pow2_pos (suc k) = omega (arith, pow2_pos k)

round_at_bounds :
    (u p : ℕ) → 0 < u → (2 * p ≤ 2 * round_at u p + u) × (2 * round_at u p ≤ 2 * p + u)
unfolding nearest
round_at_bounds u p h = grind (arith, div-add-mod p u, mod-lt p h)

round_at_close :
    (k p : ℕ)
    → (k ≡ 0) ⊎ (unit_scale * pow2 k ≤ p)
    → (2 * unit_scale * p ≤ 2 * unit_scale * round_at (pow2 k) p + p)
      × (2 * unit_scale * round_at (pow2 k) p ≤ 2 * unit_scale * p + p)
round_at_close k p (inl e) = rw e (omega (arith, round_at_bounds 1 p (omega arith)))
round_at_close k p (inr h) = omega (arith, round_at_bounds (pow2 k) p (pow2_pos k))

-- A relative error of at most 2^-53, which is exact where the unit is 1.
round_double_bounds :
    (fuel k p : ℕ)
    → (k ≡ 0) ⊎ (unit_scale * pow2 k ≤ p)
    → (2 * unit_scale * p ≤ 2 * unit_scale * round_double fuel k p + p)
      × (2 * unit_scale * round_double fuel k p ≤ 2 * unit_scale * p + p)
unfolding round_double
round_double_bounds zero k p h = round_at_close k p h
round_double_bounds (suc fuel) k p h = elim (Bool-cases (ltb p (2 * unit_scale * pow2 k))) [
  | inl fits ↦ rw (fits, round_double) (round_at_close k p h)
  | inr more ↦ rw (more, round_double) (round_double_bounds fuel (suc k) p (inr (ground arith)))
]

-- A number that a double holds: 53 bits and a power of two.
pub record IsDouble (n : ℕ) : Type 0 where
  pub significand : ℕ
  pub exponent : ℕ
  pub fits : significand ≤ 2 * unit_scale
  pub value : n ≡ significand * pow2 exponent

nearest-le : (u p n : ℕ) → 0 < u → p < n * u → nearest u p ≤ n
unfolding nearest
nearest-le u p n pos h = grind (arith, div-add-mod p u, mod-lt p pos)

round_double-IsDouble :
    (fuel k p : ℕ) → p < 2 * unit_scale * pow2 (k + fuel) → IsDouble (round_double fuel k p)
unfolding round_double
round_double-IsDouble zero k p h = record {
  significand = nearest (pow2 k) p;
  exponent = k;
  fits = nearest-le (pow2 k) p _ (pow2_pos k) (rw add-zero at h);
  value = refl;
}
round_double-IsDouble (suc fuel) k p h = elim (Bool-cases (ltb p (2 * unit_scale * pow2 k))) [
  | inl fits ↦
      rw (fits, round_double)
        (record {
          significand = nearest (pow2 k) p;
          exponent = k;
          fits = nearest-le (pow2 k) p _ (pow2_pos k) (ground arith);
          value = refl;
        })
  | inr more ↦
      rw (more, round_double)
        (round_double-IsDouble fuel (suc k) p
          (subst (λ n. p < 2 * unit_scale * pow2 n) (add-suc k fuel ∙ sym (suc-add k fuel)) h))
]

-- The creator's share of an amount below 2^31 (the column is a 32-bit integer) is a double, cut off
-- to an integer, that is within a relative error of 2^-53 of the product of the amount with the
-- double 0.70. It is at most seven tenths of the amount rounded down, and falls short of that by at
-- most 1.
pub creator_share_bounds :
    (amount : ℕ)
    → amount < 2147483648
    → (r : ℕ) × IsDouble r
      × (creator_share amount ≡ r / unit_scale)
      × (2 * unit_scale * (amount * seven_tenths) ≤ 2 * unit_scale * r + amount * seven_tenths)
      × (2 * unit_scale * r ≤ 2 * unit_scale * (amount * seven_tenths) + amount * seven_tenths)
      × (creator_share amount ≤ 7 * amount / 10)
      × (7 * amount / 10 ≤ creator_share amount + 1)
unfolding creator_share
creator_share_bounds amount h =
    let p : ℕ = amount * seven_tenths in
    let (low, high) = round_double_bounds 64 0 p (inl refl) in
    (
      round_double 64 0 p,
      round_double-IsDouble 64 0 p (omega arith),
      refl,
      low,
      high,
      omega (arith, high),
      omega (arith, low),
    )
