-- ===== src/Base/Store.antt =====
-- A key-value store (Redis) as an association list, the newest entry first.
use mathlib.Core.Path.{◌≡◌, refl}
use mathlib.Core.Bool.{false}
use mathlib.Core.Option.{Option, none, some}
use mathlib.Core.List.{List, [], ◌∷◌}
use native.Mathlib.Omega.{arith}
use ethiogram.Base.Tests.{Comparable, ◌==◌, if◌then◌else◌}

abbrev pub Dict {ℓ κ} : Type ℓ → Type κ → Type (ℓ ⊔ κ)
Dict K V = List (K × V)

module _ {ℓ κ} {K : Type ℓ} {V : Type κ} ⦃e : Comparable K⦄ where
  -- `GET`
  abbrev pub lookup : K → Dict K V → Option V
  lookup k [] = none
  lookup k ((j, v) ∷ d) = if j == k then some v else lookup k d

  -- `SET`, `SETEX`
  abbrev pub insert : K → V → Dict K V → Dict K V
  insert k v d = (k, v) ∷ d

  -- `DEL`, and the expiry of a key.
  abbrev pub delete : K → Dict K V → Dict K V
  delete k [] = []
  delete k ((j, v) ∷ d) = if j == k then delete k d else (j, v) ∷ delete k d

  pub lookup-insert_self : (k : K) (v : V) (d : Dict K V) → lookup k (insert k v d) ≡ some v
  lookup-insert_self k v d = rw ((e.equal_iff k k).1 refl)

  pub lookup-insert_ne :
      (j k : K) (v : V) (d : Dict K V) → (j == k) ≡ false → lookup k (insert j v d) ≡ lookup k d
  lookup-insert_ne j k v d h = rw h

  pub lookup-delete_self : (k : K) (d : Dict K V) → lookup k (delete k d) ≡ none
  lookup-delete_self k [] = refl
  lookup-delete_self k ((j, v) ∷ d) = ground (arith, lookup-delete_self k d)

  pub lookup-delete_ne :
      (j k : K) (d : Dict K V) → (j == k) ≡ false → lookup k (delete j d) ≡ lookup k d
  lookup-delete_ne j k [] h = refl
  lookup-delete_ne j k ((i, v) ∷ d) h =
      ground (arith, lookup-delete_ne j k d h, e.equal_iff i j, e.equal_iff i k, e.equal_iff j k)
