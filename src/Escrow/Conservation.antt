-- ===== src/Escrow/Conservation.antt =====
-- Where the ETG of a released escrow goes: workers/escrow_release.py against the sum over all wallets.
use ethiogram.Base.{
  ℕ, ◌≡◌, refl, Option, none, some, inl, inr, arith, find_first, nat_eq, nat_eq_iff, Option-cases,
}
use ethiogram.Base.Int.{ℤ, pos, ◌+ℤ◌, ◌-ℤ◌, ◌≤ℤ◌, max_zero, int_laws, parts_of_eq}
use ethiogram.Base.Sums.{total, total-modify_first, find_first-other}
use ethiogram.Models.{Db, TokenWallet, TokenEscrow, AgentUnlock, Agent, CreatorProfile}
use ethiogram.Escrow.{
  is_wallet, wallet_by_id, settle, settle_buyer, return_escrow, earn, pay_creator, find_payee,
  agent_creator, creator_wallet, owned_by, Payee, creator_share,
}

-- What a wallet holds, free and in escrow.
abbrev pub holdings : TokenWallet → ℤ
holdings wallet = wallet.balance +ℤ wallet.escrow_balance

abbrev pub circulation : Db → ℤ
circulation db = total holdings db.wallets

creator_wallet-row :
    (agent : Agent) (creator : CreatorProfile) (db : Db) {p : Payee}
    → creator_wallet agent creator db ≡ some p
    → find_first (owned_by creator.user_id db) db.wallets ≡ some p.wallet
creator_wallet-row agent creator db e = ground arith

agent_creator-row :
    (agent : Agent) (db : Db) {p : Payee}
    → agent_creator agent db ≡ some p
    → (c : CreatorProfile) × (find_first (owned_by c.user_id db) db.wallets ≡ some p.wallet)
agent_creator-row agent db e =
    elim (Option-cases
      (find_first (λ (c : CreatorProfile). nat_eq c.id agent.creator_id) db.creators)) [
        | inl missing ↦ absurd (ground arith)
        | inr (c, found) ↦ (c, creator_wallet-row agent c db (rw (found, agent_creator) at e))
      ]

-- The wallet of a payee is a row of the table.
find_payee-wallet :
    (unlock : Option AgentUnlock) (db : Db) {p : Payee}
    → find_payee unlock db ≡ some p
    → (t : TokenWallet) × (wallet_by_id p.wallet.id db ≡ some t)
unfolding find_payee
find_payee-wallet none db e = absurd (cc)
find_payee-wallet (some unlock) db {p} e =
    elim (Option-cases (find_first (λ (a : Agent). nat_eq a.id unlock.agent_id) db.agents)) [
      | inl missing ↦ absurd (ground arith)
      | inr (a, found) ↦
          let (c, row) = agent_creator-row a db (rw (found, find_payee) at e) in
          find_first-other (owned_by c.user_id db) (is_wallet p.wallet.id) db.wallets row
            ((nat_eq_iff p.wallet.id p.wallet.id).1 refl)
    ]

pub max_zero_exact : (a : ℤ) (n : ℕ) → pos n ≤ℤ a → max_zero (a -ℤ pos n) +ℤ pos n ≡ a
unfolding ◌+ℤ◌ ◌-ℤ◌
max_zero_exact a n h = ground arith

return_escrow-holdings :
    (t : TokenWallet) (n : ℕ)
    → pos n ≤ℤ t.escrow_balance
    → holdings (return_escrow n t) +ℤ pos n ≡ holdings t
return_escrow-holdings t n h = omega (int_laws, parts_of_eq (max_zero_exact t.escrow_balance n h))

earn-holdings : (t : TokenWallet) (n : ℕ) → holdings (earn n t) ≡ holdings t +ℤ pos n
earn-holdings t n = omega int_laws

settle_buyer-circulation :
    (e : TokenEscrow) (db : Db) {t : TokenWallet}
    → wallet_by_id e.wallet_id db ≡ some t
    → pos e.amount ≤ℤ t.escrow_balance
    → circulation (settle_buyer e db) +ℤ pos e.amount ≡ circulation db
settle_buyer-circulation e db {t} found enough = omega (
  int_laws,
  parts_of_eq (
      total-modify_first holdings (is_wallet e.wallet_id) (return_escrow e.amount) db.wallets
        found),
  parts_of_eq (return_escrow-holdings t e.amount enough),
)

-- What reaches a creator: the share, where the agent, its creator and a wallet are found.
abbrev pub paid : ℕ → Option Payee → ℕ
paid etg none = 0
paid etg (some payee) = etg

pay_creator-circulation :
    (id etg : ℕ) (unlock : Option AgentUnlock) (db : Db)
    → circulation (pay_creator id etg (find_payee unlock db) db)
      ≡ circulation db +ℤ pos (paid etg (find_payee unlock db))
pay_creator-circulation id etg unlock db = elim (Option-cases (find_payee unlock db)) [
  | inl nobody ↦ rw (nobody, pay_creator, paid) (omega int_laws)
  | inr (p, found) ↦
      let (t, row) = find_payee-wallet unlock db found in
      rw (found, pay_creator, paid)
        (omega (
          int_laws,
          parts_of_eq
              (total-modify_first holdings (is_wallet p.wallet.id) (earn etg) db.wallets row),
          parts_of_eq (earn-holdings t etg),
        ))
]

-- Settling an escrow that its buyer's escrow balance covers takes its amount out of circulation and
-- brings back the creator's share if a creator's wallet is found, and nothing otherwise.
pub settle-circulation :
    (e : TokenEscrow) (unlock : Option AgentUnlock) (now : ℕ) (db : Db) {t : TokenWallet}
    → wallet_by_id e.wallet_id db ≡ some t
    → pos e.amount ≤ℤ t.escrow_balance
    → circulation (settle e unlock now db) +ℤ pos e.amount
      ≡ circulation db
        +ℤ pos (paid (creator_share e.amount) (find_payee unlock (settle_buyer e db)))
unfolding settle
settle-circulation e unlock now db found enough = omega (
  int_laws,
  parts_of_eq (settle_buyer-circulation e db found enough),
  parts_of_eq (pay_creator-circulation e.id (creator_share e.amount) unlock (settle_buyer e db)),
)
