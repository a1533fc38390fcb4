-- ===== src/Base/Members.antt =====
-- Python's `x in xs` and `if x not in xs: xs.append(x)` on lists.
use mathlib.Core.Path.{◌≡◌, refl}
use mathlib.Core.Logic.{inl, inr}
use mathlib.Core.Bool.{Bool, true, false, ◌||◌}
use mathlib.Core.List.{List, [], ◌∷◌, ◌++◌}
use native.Mathlib.Omega.{arith}
use ethiogram.Base.Tests.{Comparable, ◌==◌, if◌then◌else◌, Bool-cases}

module _ {ℓ} {A : Type ℓ} ⦃e : Comparable A⦄ where
  abbrev pub contains : A → List A → Bool
  contains a [] = false
  contains a (x ∷ xs) = x == a || contains a xs

  abbrev pub add_new : A → List A → List A
  add_new a xs = if contains a xs then xs else xs ++ a ∷ []

  -- No value stands twice.
  abbrev pub IsDistinct : List A → Type 0
  IsDistinct [] = Unit
  IsDistinct (x ∷ xs) = (contains x xs ≡ false) × IsDistinct xs

  pub contains-snoc :
      (a b : A) (xs : List A) → contains a (xs ++ b ∷ []) ≡ (contains a xs || b == a)
  contains-snoc a b [] = ground arith
  contains-snoc a b (x ∷ xs) = ground (arith, contains-snoc a b xs)

  IsDistinct-snoc :
      (b : A) (xs : List A) → IsDistinct xs → contains b xs ≡ false → IsDistinct (xs ++ b ∷ [])
  IsDistinct-snoc b [] h n = (refl, tt)
  IsDistinct-snoc b (x ∷ xs) h n = (
    ground (arith, contains-snoc x b xs, e.equal_iff x b, e.equal_iff b x),
    IsDistinct-snoc b xs h.1 (ground arith),
  )

  pub add_new-IsDistinct : (a : A) (xs : List A) → IsDistinct xs → IsDistinct (add_new a xs)
  add_new-IsDistinct a xs h = elim (Bool-cases (contains a xs)) [
    | inl old ↦ rw old h
    | inr new ↦ rw new (IsDistinct-snoc a xs h new)
  ]

  pub contains-add_new_self : (a : A) (xs : List A) → contains a (add_new a xs) ≡ true
  contains-add_new_self a xs = ground (arith, contains-snoc a a xs, e.equal_iff a a)

  pub contains-add_new :
      (a b : A) (xs : List A) → contains a xs ≡ true → contains a (add_new b xs) ≡ true
  contains-add_new a b xs h = ground (arith, contains-snoc a b xs)
