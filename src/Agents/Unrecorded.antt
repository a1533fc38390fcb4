-- ===== src/Agents/Unrecorded.antt =====
-- `unlock_agent` of app/api/agents.py against the buyer's ledger and the cached balance.
use ethiogram.Base.{ℕ, ◌<◌, ◌≡◌, ◌∙◌, refl, ap, String, some, lookup, eq_nat}
use ethiogram.Base.Int.{ℤ, pos, ◌-ℤ◌, int_laws, parts_of_eq}
use ethiogram.Models.{World, Agent, TokenWallet, Config, Settings}
use ethiogram.Metering.{find_wallet, balance_of}
use ethiogram.Metering.Cache.{IsCoherent, find_wallet-modify_self}
use ethiogram.Metering.Ledger.{IsAudited}
use ethiogram.Agents.{DeployRequest, into_escrow, unlock_agent}
use ethiogram.Agents.Payment.{IsUnlockable, IsPaid, unlock_agent_succeeds}

module _ {b price release_at : ℕ} {w w' : World} {t : TokenWallet}
    (paid : IsPaid b price release_at w w' t) (costs : 0 < price)
    (wallet : find_wallet b w.db ≡ some t) where
  IsPaid-wallet : find_wallet b w'.db ≡ some (into_escrow price t)
  IsPaid-wallet =
      rw paid.wallets (find_wallet-modify_self (into_escrow price) (λ t. refl) b w.db wallet)

  IsPaid-not-IsAudited :
      (base : ℤ) → IsAudited base b w.db t → ¬ IsAudited base b w'.db (into_escrow price t)
  IsPaid-not-IsAudited base a a' =
      absurd
        (omega (int_laws, parts_of_eq a.latest, parts_of_eq (rw paid.transactions at a'.latest)))

  IsPaid-not-IsCoherent :
      (v : ℤ) → IsCoherent w → lookup b w.redis.balances ≡ some v → ¬ IsCoherent w'
  IsPaid-not-IsCoherent v h hit h' =
      let before : v ≡ t.balance = h b v hit ∙ ap balance_of wallet in
      let after : v ≡ t.balance -ℤ pos price =
        h' b v (rw paid.redis hit) ∙ ap balance_of IsPaid-wallet in
      absurd (omega (int_laws, parts_of_eq before, parts_of_eq after))

-- Where the buyer's ledger is in step with the wallet, the cache agrees with the wallets and the buyer's
-- balance is cached, a successful unlock of an agent with a positive price takes the price from the
-- wallet and leaves neither: no row says where the price went, and the cached balance is the old one.
pub unlock_agent_unrecorded :
    (encrypt : Config → String) (settings : Settings) (agent_id : ℕ) (body : DeployRequest)
    (user_id now : ℕ) (w : World) {a : Agent} {t : TokenWallet} (base v : ℤ)
    → IsUnlockable agent_id body.business_id user_id w.db a t
    → 0 < a.price_etg
    → IsAudited base body.business_id w.db t
    → IsCoherent w
    → lookup body.business_id w.redis.balances ≡ some v
    → let w' = (unlock_agent encrypt settings agent_id body user_id now w).1 in
      (find_wallet body.business_id w'.db ≡ some (into_escrow a.price_etg t))
      × ¬ IsAudited base body.business_id w'.db (into_escrow a.price_etg t)
      × ¬ IsCoherent w'
unfolding unlock_agent
unlock_agent_unrecorded encrypt settings agent_id body user_id now w base v u costs audited coherent
      cached =
    let (child_id, w', done, paid) =
      unlock_agent_succeeds encrypt settings agent_id body user_id now w u in
    rw done (
      IsPaid-wallet paid costs u.wallet,
      IsPaid-not-IsAudited paid costs u.wallet base audited,
      IsPaid-not-IsCoherent paid costs u.wallet v coherent cached,
    )
