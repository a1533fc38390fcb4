-- ===== src/Storefront/Unmetered.antt =====
-- `charge_generation` of app/api/businesses.py against the ledger and the cached balance.
use ethiogram.Base.{ℕ, ◌≡◌, refl, ◌∙◌, ap, true, String, Option, some, lookup, eq_nat, arith}
use ethiogram.Base.Int.{ℤ, pos, ◌-ℤ◌, ◌≤ℤ◌, leb_ℤ, int_laws, parts_of_eq}
use ethiogram.Models.{World, TokenWallet}
use ethiogram.Metering.{find_wallet, balance_of}
use ethiogram.Metering.Cache.{IsCoherent, find_wallet-modify_self}
use ethiogram.Metering.Ledger.{IsAudited}
use ethiogram.Storefront.{charge_generation, take_cost, pay_generation, record_generation}

-- What a funded charge does.
charge_generation-funded :
    (b : ℕ) (model_id : Option String) (w : World) (t : TokenWallet)
    → find_wallet b w.db ≡ some t
    → pos 5 ≤ℤ t.balance
    → charge_generation b model_id w ≡ (5, record_generation b model_id 5 (pay_generation b w))
unfolding charge_generation
charge_generation-funded b model_id w t found funded =
    let test : leb_ℤ (pos 5) t.balance ≡ true = ground (arith, funded) in rw found (rw test refl)

-- Where the ledger of a business is in step with its wallet, the cache agrees with the wallets and the
-- balance of the business is cached, a generation that is charged takes 5 from the wallet and leaves
-- neither: no row of the ledger says where the 5 went, and the cached balance is the old one.
pub charge_generation_unrecorded :
    (b : ℕ) (model_id : Option String) (w : World) {t : TokenWallet} (base v : ℤ)
    → IsAudited base b w.db t
    → IsCoherent w
    → lookup b w.redis.balances ≡ some v
    → pos 5 ≤ℤ t.balance
    → let (charged, w') = charge_generation b model_id w in
      (charged ≡ 5)
      × (find_wallet b w'.db ≡ some (take_cost t))
      × ¬ IsAudited base b w'.db (take_cost t)
      × ¬ IsCoherent w'
charge_generation_unrecorded b model_id w {t} base v audited coherent cached funded =
    let after : find_wallet b (pay_generation b w).db ≡ some (take_cost t) =
      find_wallet-modify_self take_cost (λ t. refl) b w.db audited.found in
    rw (charge_generation-funded b model_id w t audited.found funded) (
      refl,
      after,
      (λ a. absurd (omega (int_laws, parts_of_eq audited.latest, parts_of_eq a.latest))),
      (λ h.
          let before : v ≡ t.balance = coherent b v cached ∙ ap balance_of audited.found in
          let now : v ≡ t.balance -ℤ pos 5 = h b v cached ∙ ap balance_of after in
          absurd (omega (int_laws, parts_of_eq before, parts_of_eq now))),
    )
