-- ===== src/Escrow/Release.antt =====
-- `_release_escrow` and `_release_matured_escrows` of workers/escrow_release.py. Each escrow is
-- released in a transaction of its own under a row lock, so the releases are run one after another.
use Prim.Native.String.{◌++◌ as concat}
use ethiogram.Base.{
  ℕ, ◌+◌, String, Bool, true, false, not, ◌&&◌, ◌||◌, Option, none, some, List, [], ◌∷◌, find_first,
  modify_first, keep, nat_eq, leb, ◌==◌, eq_string, if◌then◌else◌,
}
use ethiogram.Base.Int.{pos, ◌+ℤ◌, ◌-ℤ◌, max_zero}
use ethiogram.Models.{
  World, Db, TokenWallet, TokenEscrow, EscrowStatus, is_holding, EtgTransaction, uuid, AgentUnlock,
  Agent, CreatorProfile, Business,
}
use ethiogram.Request.{Action, Result, ok, err, pure, gets, one_or_none, modify_db, ◌>>=◌, ◌>>◌}
use ethiogram.Escrow.Share.{creator_share}

abbrev pub has_id : ℕ → TokenEscrow → Bool
has_id id escrow = nat_eq escrow.id id

abbrev pub find_escrow : ℕ → Db → Option TokenEscrow
find_escrow id db = find_first (has_id id) db.escrows

abbrev pub is_wallet : ℕ → TokenWallet → Bool
is_wallet id wallet = nat_eq wallet.id id

abbrev pub wallet_by_id : ℕ → Db → Option TokenWallet
wallet_by_id id db = find_first (is_wallet id) db.wallets

-- A text that is neither absent nor empty.
abbrev pub is_text : Option String → Bool
is_text none = false
is_text (some s) = not (s == "")

-- `AgentUnlock.escrow_id == escrow.id`
abbrev pub unlocks_escrow : ℕ → AgentUnlock → Bool
unlocks_escrow id unlock = elim unlock.escrow_id [ none ↦ false | some e ↦ nat_eq e id ]

-- A wallet of a business that the user owns.
abbrev pub owned_by : ℕ → Db → TokenWallet → Bool
owned_by user_id db wallet =
    elim (find_first (λ (b : Business). nat_eq b.id wallet.business_id) db.businesses) [
      | none ↦ false
      | some b ↦ nat_eq b.owner_id user_id
    ]

-- The agent, its creator and the creator's wallet, if all three are there.
pub record Payee : Type 0 where
  pub agent : Agent
  pub creator : CreatorProfile
  pub wallet : TokenWallet

abbrev pub creator_wallet : Agent → CreatorProfile → Db → Option Payee
creator_wallet agent creator db = elim (find_first (owned_by creator.user_id db) db.wallets) [
  | none ↦ none
  | some wallet ↦ some (record { agent = agent; creator = creator; wallet = wallet })
]

abbrev pub agent_creator : Agent → Db → Option Payee
agent_creator agent db =
    elim (find_first (λ (c : CreatorProfile). nat_eq c.id agent.creator_id) db.creators) [
      | none ↦ none
      | some creator ↦ creator_wallet agent creator db
    ]

unfoldable pub find_payee : Option AgentUnlock → Db → Option Payee
find_payee none db = none
find_payee (some unlock) db =
    elim (find_first (λ (a : Agent). nat_eq a.id unlock.agent_id) db.agents) [
      | none ↦ none
      | some agent ↦ agent_creator agent db
    ]

-- 1. The buyer's escrow balance, `max(0, escrow_balance - amount)`.
abbrev pub return_escrow : ℕ → TokenWallet → TokenWallet
return_escrow amount wallet = record wallet {
  escrow_balance = max_zero (wallet.escrow_balance -ℤ pos amount);
}

abbrev pub settle_buyer : TokenEscrow → Db → Db
settle_buyer escrow db = record db {
  wallets = modify_first (is_wallet escrow.wallet_id) (return_escrow escrow.amount) db.wallets;
}

-- 2. The creator's wallet, with a ledger row, and the statistics of the creator and of the agent.
abbrev pub earn : ℕ → TokenWallet → TokenWallet
earn etg wallet = record wallet {
  balance = wallet.balance +ℤ pos etg;
  lifetime_recharged = wallet.lifetime_recharged +ℤ pos etg;
}

abbrev revenue_transaction : ℕ → ℕ → Agent → TokenWallet → EtgTransaction
revenue_transaction escrow_id etg agent wallet = record {
  wallet_id = wallet.id;
  amount = pos etg;
  balance_before = wallet.balance;
  balance_after = wallet.balance +ℤ pos etg;
  transaction_type = "creator_revenue";
  description = concat "Agent unlock revenue: " agent.name;
  reference_type = some "escrow_release";
  reference_id = some (uuid escrow_id);
  admin_id = none;
}

abbrev pub pay_creator : ℕ → ℕ → Option Payee → Db → Db
pay_creator escrow_id etg none db = db
pay_creator escrow_id etg (some payee) db = record db {
  wallets = modify_first (is_wallet payee.wallet.id) (earn etg) db.wallets;
  transactions = revenue_transaction escrow_id etg payee.agent payee.wallet ∷ db.transactions;
  creators =
      modify_first (λ c. nat_eq c.id payee.creator.id)
        (λ c. record c {
          total_revenue_etg = c.total_revenue_etg + etg;
          total_unlocks = c.total_unlocks + 1;
        })
        db.creators;
  agents =
      modify_first (λ a. nat_eq a.id payee.agent.id)
        (λ a. record a { total_unlocks = a.total_unlocks + 1 }) db.agents;
}

-- 3. The escrow itself.
abbrev pub released : ℕ → TokenEscrow → TokenEscrow
released now escrow = record escrow { status = EscrowStatus.released; released_at = some now }

abbrev pub mark_released : ℕ → ℕ → Db → Db
mark_released id now db = record db { escrows = modify_first (has_id id) (released now) db.escrows }

unfoldable pub settle : TokenEscrow → Option AgentUnlock → ℕ → Db → Db
settle escrow unlock now db =
    let buyer_done = settle_buyer escrow db in
    mark_released escrow.id now (
      pay_creator escrow.id (creator_share escrow.amount) (find_payee unlock buyer_done) buyer_done)

abbrev pub settle_action : TokenEscrow → ℕ → Action Bool
settle_action escrow now = do
  unlock ← (λ w. one_or_none (keep (unlocks_escrow escrow.id) w.db.unlocks) w)
  modify_db (settle escrow unlock now)
  pure true

-- The row is read again under a lock; what is not holding, or is in dispute, stays as it is.
abbrev pub release_found : Option TokenEscrow → ℕ → Action Bool
release_found none now = pure false
release_found (some escrow) now =
    if not (is_holding escrow.status) || is_text escrow.dispute_reason
    then pure false
    else settle_action escrow now

unfoldable pub release_escrow : ℕ → ℕ → Action Bool
release_escrow id now = do escrow ← gets (λ w. find_escrow id w.db); release_found escrow now

pub record Stats : Type 0 where
  pub released : ℕ
  pub disputed : ℕ
  pub skipped : ℕ

-- The `try` of the loop: an exception is logged, and what was written is committed.
abbrev count : Result Bool → Stats → Stats
count (ok true) s = record s { released = s.released + 1 }
count (ok false) s = record s { disputed = s.disputed + 1 }
count (err _) s = s

unfoldable pub release_all : List TokenEscrow → ℕ → Stats → World → Stats × World
unfolding release_escrow
release_all [] now s w = (s, w)
release_all (escrow ∷ escrows) now s w =
    let (r, w') = release_escrow escrow.id now w in
    let skip = release_all escrows now (record s { skipped = s.skipped + 1 }) w in
    let go = release_all escrows now (count r s) w' in if is_holding escrow.status then go else skip

abbrev is_matured : ℕ → TokenEscrow → Bool
is_matured now escrow = is_holding escrow.status && leb escrow.release_at now

abbrev insert_by_release : TokenEscrow → List TokenEscrow → List TokenEscrow
insert_by_release e [] = e ∷ []
insert_by_release e (x ∷ xs) =
    if leb e.release_at x.release_at then e ∷ x ∷ xs else x ∷ insert_by_release e xs

-- `order_by(TokenEscrow.release_at.asc())`
abbrev by_release : List TokenEscrow → List TokenEscrow
by_release [] = []
by_release (e ∷ es) = insert_by_release e (by_release es)

unfoldable pub release_matured_escrows : ℕ → World → Stats × World
unfolding release_all
release_matured_escrows now w =
    release_all (by_release (keep (is_matured now) w.db.escrows)) now
      (record { released = 0; disputed = 0; skipped = 0 }) w
