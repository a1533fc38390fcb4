-- ===== src/Escrow/Outcome.antt =====
-- The release of an escrow by workers/escrow_release.py: its conditions and its outcome.
use ethiogram.Base.{
  length, ◌≤◌, nat_eq_iff, ℕ, ◌≡◌, refl, ap, ◌∙◌, true, false, not, ◌||◌, Option, none, some, List,
  [], ◌∷◌, inl, inr, ◌⊎◌, arith, modify_first, find_first-holds, find_first-modify_first, keep,
  nat_eq,
}
use ethiogram.Models.{World, Db, TokenEscrow, is_holding, AgentUnlock}
use ethiogram.Request.{ok, one_or_none}
use ethiogram.Escrow.{
  has_id, find_escrow, is_text, settle_action, settle, pay_creator, released, release_escrow,
  creator_share, find_payee, settle_buyer, Payee, unlocks_escrow, release_found,
}

pay_creator-escrows :
    (id etg : ℕ) (payee : Option Payee) (db : Db)
    → (pay_creator id etg payee db).escrows ≡ db.escrows
pay_creator-escrows id etg none db = refl
pay_creator-escrows id etg (some payee) db = refl

-- Settling writes the escrow's row and no other of its table.
pub settle-escrows :
    (e : TokenEscrow) (id : ℕ) (unlock : Option AgentUnlock) (now : ℕ) (db : Db)
    → e.id ≡ id
    → (settle e unlock now db).escrows ≡ modify_first (has_id id) (released now) db.escrows
unfolding settle
settle-escrows e id unlock now db same =
    let paid = settle_buyer e db in
    ap (modify_first (has_id e.id) (released now))
      (pay_creator-escrows e.id (creator_share e.amount) (find_payee unlock paid) paid)
    ∙ ap (λ k. modify_first (has_id k) (released now) db.escrows) same

-- An escrow that is missing, is not holding or is in dispute is left alone.
pub release_escrow_refuses :
    (id now : ℕ) (w : World)
    → (find_escrow id w.db ≡ none)
      ⊎ ((e : TokenEscrow) × (find_escrow id w.db ≡ some e)
          × (not (is_holding e.status) || is_text e.dispute_reason ≡ true))
    → release_escrow id now w ≡ (ok false, w)
unfolding release_escrow
release_escrow_refuses id now w (inl missing) = rw (missing, release_found)
release_escrow_refuses id now w (inr (e, found, kept)) = rw (found, release_found) (rw kept)

-- Which unlocks rest on an escrow.
abbrev pub unlocks_of : ℕ → Db → List AgentUnlock
unlocks_of id db = keep (unlocks_escrow id) db.unlocks

abbrev head : List AgentUnlock → Option AgentUnlock
head [] = none
head (u ∷ us) = some u

one_or_none-head :
    (us : List AgentUnlock) (w : World) → length us ≤ 1 → one_or_none us w ≡ (ok (head us), w)
one_or_none-head [] w h = refl
one_or_none-head (u ∷ []) w h = refl
one_or_none-head (u ∷ v ∷ us) w h = absurd (omega arith)

-- What the release of an escrow needs: it is there, holding and not in dispute, and no two unlocks
-- name it.
pub record IsReleasable (id : ℕ) (db : Db) (e : TokenEscrow) : Type 0 where
  pub found : find_escrow id db ≡ some e
  pub holding : is_holding e.status ≡ true
  pub undisputed : is_text e.dispute_reason ≡ false
  pub single : length (unlocks_of e.id db) ≤ 1

settle_action-eq_settle :
    (e : TokenEscrow) (now : ℕ) (w : World)
    → length (unlocks_of e.id w.db) ≤ 1
    → settle_action e now w
      ≡ (ok true, record w { db = settle e (head (unlocks_of e.id w.db)) now w.db })
settle_action-eq_settle e now w h = rw (one_or_none-head (unlocks_of e.id w.db) w h)

pub release_escrow-eq_settle :
    (id now : ℕ) (w : World) {e : TokenEscrow}
    → IsReleasable id w.db e
    → release_escrow id now w
      ≡ (ok true, record w { db = settle e (head (unlocks_of e.id w.db)) now w.db })
unfolding release_escrow
release_escrow-eq_settle id now w {e} r =
    rw (r.found, release_found)
      (rw (r.holding, r.undisputed) (settle_action-eq_settle e now w r.single))

-- An escrow that is found, holding and undisputed, and that at most one unlock names, is released:
-- the call returns true, the escrow's row says so, and another call, at any time, returns false and
-- changes nothing.
pub release_escrow_once :
    (id now later : ℕ) (w : World) {e : TokenEscrow}
    → IsReleasable id w.db e
    → let (r, w') = release_escrow id now w in
      (r ≡ ok true)
      × (find_escrow id w'.db ≡ some (released now e))
      × (release_escrow id later w' ≡ (ok false, w'))
release_escrow_once id now later w {e} r =
    let w' : World = record w { db = settle e (head (unlocks_of e.id w.db)) now w.db } in
    let fits : nat_eq e.id id ≡ true = find_first-holds (has_id id) w.db.escrows r.found in
    let same : e.id ≡ id = (nat_eq_iff e.id id).0 fits in
    let marked : find_escrow id w'.db ≡ some (released now e) =
      rw (settle-escrows e id (head (unlocks_of e.id w.db)) now w.db same)
        (find_first-modify_first (has_id id) (released now) w.db.escrows r.found fits) in
    rw (release_escrow-eq_settle id now w r)
      (refl, marked, release_escrow_refuses id later w' (inr (released now e, marked, refl)))
