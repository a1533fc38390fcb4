-- ===== src/Escrow/Backing.antt =====
-- The escrow balance of a wallet against its escrows: what `unlock_agent` of app/api/agents.py puts
-- in, and what workers/escrow_release.py takes out.
use ethiogram.Base.{
  String, ℕ, ◌+◌, ◌≡◌, ◌∙◌, refl, Bool, true, ◌&&◌, Option, none, some, inl, inr, arith,
  find_first-holds, find_first-modify_first, find_first-modify_same, find_first-modify_ne,
  Bool-cases, nat_eq, nat_eq_iff,
}
use ethiogram.Base.Int.{pos, ◌+ℤ◌, int_laws, parts_of_eq}
use ethiogram.Base.Sums.{total_if, total_if-modify_first}
use ethiogram.Models.{
  Agent, Config, Settings, World, Db, TokenWallet, TokenEscrow, AgentUnlock, is_holding,
}
use ethiogram.Metering.{owns_wallet, find_wallet}
use ethiogram.Agents.{DeployRequest, into_escrow, unlock_agent}
use ethiogram.Agents.Payment.{IsPaid, IsUnlockable, unlock_agent_succeeds}
use ethiogram.Escrow.{
  is_wallet, wallet_by_id, has_id, find_escrow, released, settle, settle_buyer, return_escrow, earn,
  pay_creator, find_payee, Payee, creator_share,
}
use ethiogram.Escrow.Conservation.{max_zero_exact}
use ethiogram.Escrow.Outcome.{settle-escrows}

abbrev is_held : ℕ → TokenEscrow → Bool
is_held wallet_id e = is_holding e.status && nat_eq e.wallet_id wallet_id

-- What the escrows that are still holding hold for a wallet.
abbrev pub held : ℕ → Db → ℕ
held wallet_id db = total_if (is_held wallet_id) (λ (e : TokenEscrow). e.amount) db.escrows

-- A wallet's escrow balance is the sum of its escrows that are still holding.
pub record IsBacked (id : ℕ) (db : Db) (t : TokenWallet) : Type 0 where
  pub found : wallet_by_id id db ≡ some t
  pub backed : t.escrow_balance ≡ pos (held id db)

-- The same for what an unlock writes.
IsPaid-IsBacked :
    (b price release_at : ℕ) (w w' : World) {t : TokenWallet}
    → IsPaid b price release_at w w' t
    → find_wallet b w.db ≡ some t
    → IsBacked t.id w.db t
    → IsBacked t.id w'.db (into_escrow price t)
IsPaid-IsBacked b price release_at w w' {t} paid wallet h = record {
  found = rw paid.wallets (
      find_first-modify_same (owns_wallet b) (is_wallet t.id) (into_escrow price) w.db.wallets
        wallet h.found ((nat_eq_iff t.id t.id).1 refl));
  backed =
      rw paid.escrows (rw ((nat_eq_iff t.id t.id).1 refl) (omega (int_laws, parts_of_eq h.backed)));
}

-- An unlock that passes its guards keeps the buyer's escrow balance equal to the sum of the buyer's
-- escrows that are still holding: it adds the price to both.
pub unlock_agent-IsBacked :
    (encrypt : Config → String) (settings : Settings) (agent_id : ℕ) (body : DeployRequest)
    (user_id now : ℕ) (w : World) {a : Agent} {t : TokenWallet}
    → IsUnlockable agent_id body.business_id user_id w.db a t
    → IsBacked t.id w.db t
    → IsBacked t.id
        (unlock_agent encrypt settings agent_id body user_id now w).1.db
        (into_escrow a.price_etg t)
unlock_agent-IsBacked encrypt settings agent_id body user_id now w {a} {t} u h =
    let (child_id, w', done, paid) =
      unlock_agent_succeeds encrypt settings agent_id body user_id now w u in
    rw done (IsPaid-IsBacked body.business_id a.price_etg _ w w' paid u.wallet h)

-- A payment to a creator leaves every escrow balance alone, the payee's own too.
pay_creator-escrow_balance :
    (escrow_id etg id : ℕ) (payee : Option Payee) (db : Db) {t : TokenWallet}
    → wallet_by_id id db ≡ some t
    → (t' : TokenWallet) × (wallet_by_id id (pay_creator escrow_id etg payee db) ≡ some t')
      × (t'.escrow_balance ≡ t.escrow_balance)
pay_creator-escrow_balance escrow_id etg id none db {t} found = (t, found, refl)
pay_creator-escrow_balance escrow_id etg id (some p) db {t} found =
    elim (Bool-cases (nat_eq p.wallet.id id)) [
      | inl own ↦
          let same : p.wallet.id ≡ id = (nat_eq_iff p.wallet.id id).0 own in
          (
            earn etg t,
            rw same (
                find_first-modify_first (is_wallet id) (earn etg) db.wallets found
                  (find_first-holds (is_wallet id) db.wallets found)),
            refl,
          )
      | inr other ↦ (
        t,
        find_first-modify_ne (is_wallet p.wallet.id) (is_wallet id) (earn etg) db.wallets
              (λ y mine. (ground arith, ground arith))
            ∙ found,
        refl,
      )
    ]

held-settle :
    (e : TokenEscrow) (id : ℕ) (unlock : Option AgentUnlock) (now : ℕ) (db : Db)
    → find_escrow id db ≡ some e
    → is_holding e.status ≡ true
    → held e.wallet_id (settle e unlock now db) + e.amount ≡ held e.wallet_id db
held-settle e id unlock now db found holding =
    let same : e.id ≡ id = (nat_eq_iff e.id id).0 (find_first-holds (has_id id) db.escrows found) in
    rw (settle-escrows e id unlock now db same) (
      ground (
        arith,
        total_if-modify_first (is_held e.wallet_id) (λ (e : TokenEscrow). e.amount) (has_id id)
            (released now) db.escrows found,
      ))

-- If a wallet's escrow balance is the sum of its escrows that are still holding, settling one of
-- them that is found and holding keeps it so and takes exactly the escrow's amount from it, also
-- where the buyer is the creator who is paid: `max(0, ...)` cuts nothing off.
pub settle-IsBacked :
    (e : TokenEscrow) (id : ℕ) (unlock : Option AgentUnlock) (now : ℕ) (db : Db) {t : TokenWallet}
    → find_escrow id db ≡ some e
    → is_holding e.status ≡ true
    → IsBacked e.wallet_id db t
    → (t' : TokenWallet) × IsBacked e.wallet_id (settle e unlock now db) t'
      × (t'.escrow_balance +ℤ pos e.amount ≡ t.escrow_balance)
unfolding settle
settle-IsBacked e id unlock now db {t} found holding h =
    let paid_db : Db = settle_buyer e db in
    let kept = held-settle e id unlock now db found holding in
    let buyer : wallet_by_id e.wallet_id paid_db ≡ some (return_escrow e.amount t) =
      find_first-modify_first (is_wallet e.wallet_id) (return_escrow e.amount) db.wallets h.found
        (find_first-holds (is_wallet e.wallet_id) db.wallets h.found) in
    let (t', row, same) =
      pay_creator-escrow_balance e.id (creator_share e.amount) e.wallet_id
        (find_payee unlock paid_db) paid_db buyer in
    let exact =
      max_zero_exact t.escrow_balance e.amount (omega (int_laws, parts_of_eq h.backed, kept)) in
    (
      t',
      record {
        found = row;
        backed = omega (int_laws, parts_of_eq h.backed, parts_of_eq same, parts_of_eq exact, kept);
      },
      omega (int_laws, parts_of_eq same, parts_of_eq exact),
    )
