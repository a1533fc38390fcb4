-- ===== src/Credits/Odaflux.antt =====
-- `internal_chapa_credit` of app/api/internal.py against the wallet and the bots in grace.
use ethiogram.Base.{
  ℕ, ◌≡◌, refl, sym, ◌∙◌, ap, inl, inr, ◌⊎◌, ◌≢◌, false, List, [], ◌∷◌, String, Bool-cases, arith,
  count_if, modify_all, ◌==◌, eq_string, eq_nat,
}
use ethiogram.Base.Int.{pos, ◌+ℤ◌, ◌≤ℤ◌, leb_ℤ}
use ethiogram.Models.{World, Bot, Settings, Error}
use ethiogram.Request.{ok, err}
use ethiogram.Metering.{db_balance, credit, in_grace, reactivate, reactivate_grace_bots}
use ethiogram.Metering.Totals.{db_balance-credit, credit-returns}
use ethiogram.Credits.{ChapaCreditPayload, odaflux_credit, credit_and_wake, internal_chapa_credit}

reactivated :
    (b : ℕ) (bot : Bot) (bots : List Bot)
    → count_if (in_grace b) bots ≡ 0
    → count_if (in_grace b) (reactivate bot ∷ bots) ≡ 0
reactivated b bot bots rest = ground (arith, rest)

count_if-reactivated :
    (b : ℕ) (bots : List Bot) → count_if (in_grace b) (modify_all (in_grace b) reactivate bots) ≡ 0
count_if-reactivated b [] = refl
count_if-reactivated b (bot ∷ bots) = elim (Bool-cases (in_grace b bot)) [
  | inl waits ↦ rw waits (reactivated b bot _ (count_if-reactivated b bots))
  | inr other ↦ rw other (rw other (omega (arith, count_if-reactivated b bots)))
]

credit_and_wake_lem :
    (payload : ChapaCreditPayload) (w : World)
    → let b = payload.business_id in
      let (balance, w') = credit_and_wake payload w in
      (balance ≡ db_balance b w.db +ℤ payload.amount)
      × (db_balance b w'.db ≡ db_balance b w.db +ℤ payload.amount)
      × (count_if (in_grace b) w'.db.bots ≡ 0)
unfolding credit_and_wake reactivate_grace_bots
credit_and_wake_lem payload w = (
  credit-returns payload.business_id (odaflux_credit payload) w,
  db_balance-credit payload.business_id (odaflux_credit payload) w,
  count_if-reactivated payload.business_id
      (credit payload.business_id (odaflux_credit payload) w).1.db.bots,
)

-- The conditions on which a request is refused, each with its status.
abbrev pub Refused : Settings → String → ChapaCreditPayload → ℕ → Type 0
Refused settings key payload code =
    ((code ≡ 500) × (settings.chapa_internal_key ≡ ""))
    ⊎ ((settings.chapa_internal_key ≢ "")
        × (((code ≡ 401) × (key ≢ settings.chapa_internal_key))
            ⊎ ((code ≡ 400) × (key ≡ settings.chapa_internal_key) × (payload.amount ≤ℤ pos 0))))

apart : (s t : String) → (s == t) ≡ false → s ≢ t
apart s t e same = absurd (ground (arith, (eq_string.equal_iff s t).1 same))

-- A request where no key is set is refused with the status 500, one with another key than the one that
-- is set with 401, and one for an amount that is not positive with 400; they change nothing. Only such
-- requests are refused: any other adds the amount to the balance of the business and returns the
-- balance that results, and leaves none of its bots in grace. Nothing depends on the reference of the
-- payment: the same request once more adds the amount once more.
pub internal_chapa_credit_lem :
    (settings : Settings) (key : String) (payload : ChapaCreditPayload) (w : World)
    → let b = payload.business_id in
      let (r, w') = internal_chapa_credit settings key payload w in
      ((code : ℕ) × (r ≡ err (Error.http_exception code))
        × (w' ≡ w)
        × Refused settings key payload code)
      ⊎ ((settings.chapa_internal_key ≢ "")
          × (key ≡ settings.chapa_internal_key)
          × (pos 1 ≤ℤ payload.amount)
          × (r ≡ ok (db_balance b w'.db))
          × (db_balance b w'.db ≡ db_balance b w.db +ℤ payload.amount)
          × (count_if (in_grace b) w'.db.bots ≡ 0)
          × ((internal_chapa_credit settings key payload w').0
              ≡ ok (db_balance b w'.db +ℤ payload.amount)))
unfolding internal_chapa_credit
internal_chapa_credit_lem settings key payload w =
    elim (Bool-cases (settings.chapa_internal_key == "")) [
      | inl unset ↦ rw unset (inl (500, refl, refl, inl (refl, (eq_string.equal_iff _ _).0 unset)))
      | inr set ↦ elim (Bool-cases (key == settings.chapa_internal_key)) [
        | inr wrong ↦
            rw (set, wrong)
              (inl (401, refl, refl, inr (apart _ _ set, inl (refl, apart _ _ wrong))))
        | inl right ↦ elim (Bool-cases (leb_ℤ payload.amount (pos 0))) [
          | inl nothing ↦
              rw (set, right, nothing)
                (inl (
                  400,
                  refl,
                  refl,
                  inr (apart _ _ set, inr (refl, (eq_string.equal_iff _ _).0 right, ground arith)),
                ))
          | inr some_amount ↦
              let (returned, balance, awake) = credit_and_wake_lem payload w in
              let (again, _, _) = credit_and_wake_lem payload (credit_and_wake payload w).1 in
              rw (set, right, some_amount)
                (inr (
                  apart _ _ set,
                  (eq_string.equal_iff _ _).0 right,
                  ground (arith, some_amount),
                  ap ok (returned ∙ sym balance),
                  balance,
                  awake,
                  ap ok again,
                ))
        ]
      ]
    ]
