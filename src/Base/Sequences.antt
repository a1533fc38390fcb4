-- ===== src/Base/Sequences.antt =====
-- Prefixes of lists, and rows that fit, for loops that collect a bounded number of results.
use Prim.Native.Nat.{ℕ, zero, suc, ◌≤◌}
use mathlib.Core.Path.{◌≡◌, refl, sym, subst}
use mathlib.Core.Logic.{◌⊎◌, inl, inr}
use mathlib.Core.Bool.{Bool, true}
use mathlib.Core.List.{List, [], ◌∷◌, ◌++◌}
use native.Mathlib.Omega.{arith}
use ethiogram.Base.Tests.{Bool-cases}
use ethiogram.Base.Rows.{All, length, keep}

module _ {ℓ} {A : Type ℓ} where
  abbrev pub take : ℕ → List A → List A
  take zero xs = []
  take (suc n) [] = []
  take (suc n) (x ∷ xs) = x ∷ take n xs

  pub length-snoc : (xs : List A) (x : A) → length (xs ++ x ∷ []) ≡ suc (length xs)
  length-snoc [] x = refl
  length-snoc (y ∷ xs) x = ground (arith, length-snoc xs x)

  pub snoc-append : (xs : List A) (x : A) (ys : List A) → (xs ++ x ∷ []) ++ ys ≡ xs ++ x ∷ ys
  snoc-append [] x ys = refl
  snoc-append (y ∷ xs) x ys = ground (arith, snoc-append xs x ys)

  pub append-nil : (xs : List A) → xs ++ [] ≡ xs
  append-nil [] = refl
  append-nil (y ∷ xs) = ground (arith, append-nil xs)

  pub take-nil : (n : ℕ) → take n [] ≡ []
  take-nil zero = refl
  take-nil (suc n) = refl

  pub length-take : (n : ℕ) (xs : List A) → length (take n xs) ≤ n
  length-take zero xs = omega arith
  length-take (suc n) [] = omega arith
  length-take (suc n) (x ∷ xs) = omega (arith, length-take n xs)

  pub All-take {κ} : (P : A → Type κ) (n : ℕ) (xs : List A) → All P xs → All P (take n xs)
  All-take P zero xs a = tt
  All-take P (suc n) [] a = tt
  All-take P (suc n) (x ∷ xs) a = (a.0, All-take P n xs a.1)

  -- The rows that a filter keeps fit it.
  pub All-keep {κ} :
      (P Q : A → Type κ) (p : A → Bool) (xs : List A)
      → ((x : A) → p x ≡ true → P x → Q x)
      → All P xs
      → All Q (keep p xs)
  All-keep P Q p [] h a = tt
  All-keep P Q p (x ∷ xs) h a = elim (Bool-cases (p x)) [
    | inl e ↦ rw e (h x e a.0, All-keep P Q p xs h a.1)
    | inr e ↦ rw e (All-keep P Q p xs h a.1)
  ]

module _ {A : Type 0} where
  abbrev pub IsIn : A → List A → Type 0
  IsIn x [] = ⊥
  IsIn x (y ∷ xs) = (y ≡ x) ⊎ IsIn x xs

  pub All-IsIn {κ} : (P : A → Type κ) {x : A} (xs : List A) → All P xs → IsIn x xs → P x
  All-IsIn P [] a m = absurd m
  All-IsIn P (y ∷ xs) a (inl e) = subst P e a.0
  All-IsIn P (y ∷ xs) a (inr m) = All-IsIn P xs a.1 m

  pub IsIn-keep : {x : A} (p : A → Bool) (xs : List A) → IsIn x (keep p xs) → p x ≡ true
  IsIn-keep p [] m = absurd m
  IsIn-keep {x} p (y ∷ xs) m = elim (Bool-cases (p y)) [
    | inl e ↦ (elim (rw e at m) [
      | inl same ↦ subst (λ z. p z ≡ true) same e
      | inr rest ↦ IsIn-keep p xs rest
    ])
    | inr e ↦ IsIn-keep p xs (rw e at m)
  ]

  pub keep-IsIn : {x : A} (p : A → Bool) (xs : List A) → IsIn x xs → p x ≡ true → IsIn x (keep p xs)
  keep-IsIn p [] m h = m
  keep-IsIn {x} p (y ∷ xs) (inl same) h =
      (let fits : p y ≡ true = subst (λ z. p z ≡ true) (sym same) h in rw fits (inl same))
  keep-IsIn p (y ∷ xs) (inr m) h = elim (Bool-cases (p y)) [
    | inl e ↦ rw e (inr (keep-IsIn p xs m h))
    | inr e ↦ rw e (keep-IsIn p xs m h)
  ]
