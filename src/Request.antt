-- ===== src/Request.antt =====
-- A request handler: state and exceptions, and the transaction that app/db/session.py puts round
-- each request. `World` is the database and Redis.
pub mod Preserves
use ethiogram.Base.{Bool, Option, none, some, List, [], ◌∷◌, if◌then◌else◌}
use ethiogram.Models.{World, Db, Error}

pub data Result {ℓ} (A : Type ℓ) : Type ℓ where
  ok : A → Result A
  err : Error → Result A

abbrev pub Action : Type 0 → Type 0
Action A = World → Result A × World

module _ {A : Type 0} where
  abbrev pub pure : A → Action A
  pure a w = (ok a, w)

  abbrev pub raise : Error → Action A
  raise e w = (err e, w)

  abbrev pub gets : (World → A) → Action A
  gets f w = (ok (f w), w)

  abbrev pub or_raise : Option A → Error → Action A
  or_raise (some found) _ = pure found
  or_raise none failure = raise failure

-- What follows a step that has ended, with the world that it left.
abbrev pub continue : {A B : Type 0} → Result A × World → (A → Action B) → Result B × World
continue (ok a, w) f = f a w
continue (err e, w) f = (err e, w)

infixl 5 ◌>>=◌ ◌>>◌
abbrev pub ◌>>=◌ : {A B : Type 0} → Action A → (A → Action B) → Action B
◌>>=◌ m f w = continue (m w) f

abbrev pub ◌>>◌ : {A B : Type 0} → Action A → Action B → Action B
m >> k = m >>= λ _. k

abbrev pub raise_if : Bool → Error → Action Unit
raise_if c e w = (if c then err e else ok tt, w)

abbrev pub modify_db : (Db → Db) → Action Unit
modify_db f w = (ok tt, record w { db = f w.db })

-- `scalar_one_or_none` on columns that no constraint makes unique: two rows raise.
module _ {A : Type 0} where
  abbrev pub one_or_none : List A → Action (Option A)
  one_or_none [] = pure none
  one_or_none (a ∷ []) = pure (some a)
  one_or_none (a ∷ b ∷ _) = raise Error.multiple_results

  -- `get_db`: commit at the end, roll the database back on an exception. Redis keeps its writes.
  abbrev pub end_transaction : Db → Result A × World → Result A × World
  end_transaction before (ok a, w) = (ok a, w)
  end_transaction before (err e, w) = (err e, record w { db = before })

  abbrev pub transaction : Action A → Action A
  transaction handler w = end_transaction w.db (handler w)
