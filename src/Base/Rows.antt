-- ===== src/Base/Rows.antt =====
-- A database table as the list of its rows: `select(...).where(...)` with `scalar_one_or_none`,
-- and the write to the row that such a query returned.
use Prim.Native.Nat.{ℕ, suc, ◌+◌}
use mathlib.Core.Path.{◌≡◌, refl, subst}
use mathlib.Core.Logic.{inl, inr}
use mathlib.Core.Bool.{Bool, true, false}
use mathlib.Core.Option.{Option, none, some}
use mathlib.Core.List.{List, [], ◌∷◌}
use native.Mathlib.Omega.{arith}
use ethiogram.Base.Tests.{if◌then◌else◌, Bool-cases}

-- A predicate by recursion, which the tactics read and build.
abbrev pub All {ℓ κ} : {A : Type ℓ} → (A → Type κ) → List A → Type κ
All P [] = Unit
All P (x ∷ xs) = P x × All P xs

module _ {ℓ} {A : Type ℓ} where
  abbrev pub length : List A → ℕ
  length [] = 0
  length (x ∷ xs) = suc (length xs)

  -- The first row that fits. On a column with a unique constraint it is the only one.
  abbrev pub find_first : (A → Bool) → List A → Option A
  find_first p [] = none
  find_first p (x ∷ xs) = if p x then some x else find_first p xs

  -- A write to the object that `find_first` returned.
  abbrev pub modify_first : (A → Bool) → (A → A) → List A → List A
  modify_first p f [] = []
  modify_first p f (x ∷ xs) = if p x then f x ∷ xs else x ∷ modify_first p f xs

  -- A write to each row that fits.
  abbrev pub modify_all : (A → Bool) → (A → A) → List A → List A
  modify_all p f [] = []
  modify_all p f (x ∷ xs) = (if p x then f x else x) ∷ modify_all p f xs

  abbrev pub keep : (A → Bool) → List A → List A
  keep p [] = []
  keep p (x ∷ xs) = if p x then x ∷ keep p xs else keep p xs

  abbrev pub count_if : (A → Bool) → List A → ℕ
  count_if p [] = 0
  count_if p (x ∷ xs) = (if p x then 1 else 0) + count_if p xs

  pub find_first-holds :
      (p : A → Bool) (xs : List A) {x : A} → find_first p xs ≡ some x → p x ≡ true
  find_first-holds p [] e = cc
  find_first-holds p (y ∷ xs) {x} e = ground (arith, find_first-holds p xs {x = x})

  pub find_first-modify_first :
      (p : A → Bool) (f : A → A) (xs : List A) {x : A}
      → find_first p xs ≡ some x
      → p (f x) ≡ true
      → find_first p (modify_first p f xs) ≡ some (f x)
  find_first-modify_first p f [] e h = cc
  find_first-modify_first p f (y ∷ xs) {x} e h =
      ground (arith, find_first-modify_first p f xs {x = x})

  -- Two queries that find one row: a write through the first is seen by the second.
  pub find_first-modify_same :
      (p q : A → Bool) (f : A → A) (xs : List A) {x : A}
      → find_first p xs ≡ some x
      → find_first q xs ≡ some x
      → q (f x) ≡ true
      → find_first q (modify_first p f xs) ≡ some (f x)
  find_first-modify_same p q f [] e d h = cc
  find_first-modify_same p q f (y ∷ xs) {x} e d h = ground (
    arith,
    find_first-modify_same p q f xs {x = x},
    find_first-holds p xs {x = x},
    find_first-holds q xs {x = x},
  )

  -- A query that tells the written row apart by nothing that the write changed.
  pub find_first-modify_ne :
      (p q : A → Bool) (f : A → A) (xs : List A)
      → ((y : A) → p y ≡ true → (q y ≡ false) × (q (f y) ≡ false))
      → find_first q (modify_first p f xs) ≡ find_first q xs
  find_first-modify_ne p q f [] h = refl
  find_first-modify_ne p q f (y ∷ xs) h = ground (arith, h y, find_first-modify_ne p q f xs h)

  pub modify_first-none :
      (p : A → Bool) (f : A → A) (xs : List A) → find_first p xs ≡ none → modify_first p f xs ≡ xs
  modify_first-none p f [] e = refl
  modify_first-none p f (y ∷ xs) e = ground (arith, modify_first-none p f xs)

  pub All-modify_first {κ} :
      {P : A → Type κ} (p : A → Bool) (f : A → A) (xs : List A)
      → ((x : A) → p x ≡ true → P x → P (f x))
      → All P xs
      → All P (modify_first p f xs)
  All-modify_first p f [] h a = tt
  All-modify_first p f (x ∷ xs) h a = elim (Bool-cases (p x)) [
    | inl e ↦ rw e (h x e a.0, a.1)
    | inr e ↦ rw e (a.0, All-modify_first p f xs h a.1)
  ]

  pub All-find_first {κ} :
      (P : A → Type κ) (p : A → Bool) (xs : List A) {x : A}
      → All P xs
      → find_first p xs ≡ some x
      → P x
  All-find_first P p [] a e = absurd (cc)
  All-find_first P p (y ∷ xs) {x} a e = elim (Bool-cases (p y)) [
    | inl h ↦ (let same : y ≡ x = ground arith in subst P same a.0)
    | inr h ↦ All-find_first P p xs a.1 (rw h at e)
  ]
