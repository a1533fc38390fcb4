-- ===== src/Base/Sums.antt =====
-- Sums over the rows of a table, under the writes of Base/Rows.
use Prim.Native.Nat.{ℕ, ◌+◌}
use mathlib.Core.Path.{◌≡◌}
use mathlib.Core.Logic.{inl, inr}
use mathlib.Core.Bool.{Bool, true}
use mathlib.Core.Option.{some}
use mathlib.Core.List.{List, [], ◌∷◌}
use native.Mathlib.Omega.{arith}
use ethiogram.Base.Tests.{if◌then◌else◌, Bool-cases}
use ethiogram.Base.Rows.{find_first, modify_first}
use ethiogram.Base.Int.{ℤ, pos, ◌+ℤ◌, int_laws}

module _ {ℓ} {A : Type ℓ} where
  abbrev pub total : (A → ℤ) → List A → ℤ
  total g [] = pos 0
  total g (x ∷ xs) = g x +ℤ total g xs

  abbrev pub total_if : (A → Bool) → (A → ℕ) → List A → ℕ
  total_if p g [] = 0
  total_if p g (x ∷ xs) = (if p x then g x else 0) + total_if p g xs

  pub total-modify_first :
      (g : A → ℤ) (p : A → Bool) (f : A → A) (xs : List A) {x : A}
      → find_first p xs ≡ some x
      → total g (modify_first p f xs) +ℤ g x ≡ total g xs +ℤ g (f x)
  total-modify_first g p f [] e = cc
  total-modify_first g p f (y ∷ xs) {x} e = grind (int_laws, total-modify_first g p f xs {x = x})

  pub total_if-modify_first :
      (q : A → Bool) (g : A → ℕ) (p : A → Bool) (f : A → A) (xs : List A) {x : A}
      → find_first p xs ≡ some x
      → total_if q g (modify_first p f xs) + (if q x then g x else 0)
        ≡ total_if q g xs + (if q (f x) then g (f x) else 0)
  total_if-modify_first q g p f [] e = cc
  total_if-modify_first q g p f (y ∷ xs) {x} e =
      ground (arith, total_if-modify_first q g p f xs {x = x})

  -- A row that one query finds is found, or is preceded by one that is found, by another that fits.
  pub find_first-other :
      (p q : A → Bool) (xs : List A) {x : A}
      → find_first p xs ≡ some x
      → q x ≡ true
      → (y : A) × (find_first q xs ≡ some y)
  find_first-other p q [] e h = absurd (cc)
  find_first-other p q (y ∷ xs) {x} e h = elim (Bool-cases (q y)) [
    | inl fits ↦ (y, rw fits)
    | inr past ↦ elim (Bool-cases (p y)) [
      | inl hit ↦ absurd (ground arith)
      | inr miss ↦ let (z, found) = find_first-other p q xs (rw miss at e) h in (z, rw past found)
    ]
  ]
