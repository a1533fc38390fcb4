-- ===== src/Request/Preserves.antt =====
-- What every step of a handler keeps of the database, the handler keeps.
use ethiogram.Base.{Option, none, some, List, [], ◌∷◌}
use ethiogram.Models.{World, Db, Error}
use ethiogram.Request.{
  Result, ok, err, Action, or_raise, continue, ◌>>=◌, one_or_none, end_transaction, transaction,
}

abbrev pub Preserves : (Db → Type 0) → {A : Type 0} → Action A → Type 0
Preserves P m = (w : World) → P w.db → P (m w).1.db

module _ (P : Db → Type 0) where
  continue-Preserves :
      {A B : Type 0} (r : Result A × World) (k : A → Action B)
      → P r.1.db
      → ((a : A) → Preserves P (k a))
      → P (continue r k).1.db
  continue-Preserves (ok a, w) k h g = g a w h
  continue-Preserves (err e, w) k h g = h

  pub bind-Preserves :
      {A B : Type 0} (m : Action A) (k : A → Action B)
      → Preserves P m
      → ((a : A) → Preserves P (k a))
      → Preserves P (m >>= k)
  bind-Preserves m k h g w p = continue-Preserves (m w) k (h w p) g

  pub or_raise-Preserves : {A : Type 0} (o : Option A) (e : Error) → Preserves P (or_raise o e)
  or_raise-Preserves none e w p = p
  or_raise-Preserves (some a) e w p = p

  pub one_or_none-Preserves :
      {A : Type 0} (f : World → List A) → Preserves P (λ w. one_or_none (f w) w)
  one_or_none-Preserves {A} f w p = go (f w)
    where
      go : (xs : List A) → P (one_or_none xs w).1.db
      go [] = p
      go (x ∷ []) = p
      go (x ∷ y ∷ xs) = p

  end_transaction-Preserves :
      {A : Type 0} (before : Db) (r : Result A × World)
      → P before
      → P r.1.db
      → P (end_transaction before r).1.db
  end_transaction-Preserves before (ok a, w) p q = q
  end_transaction-Preserves before (err e, w) p q = p

  pub transaction-Preserves :
      {A : Type 0} (m : Action A) → Preserves P m → Preserves P (transaction m)
  transaction-Preserves m h w p = end_transaction-Preserves w.db (m w) p (h w p)
