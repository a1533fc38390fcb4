-- ===== src/Transfers/Pending.antt =====
-- The pending transfers of a business, over any sequence of the handlers of app/api/transfers.py.
use ethiogram.Base.{
  ℕ, ◌-◌, ◌≤◌, String, ◌≡◌, refl, Bool, true, false, Option, List, [], ◌∷◌, inl, inr, arith,
  find_first, Option-cases, count_if, modify_first, modify_all, nat_eq, nat_eq_iff, Bool-cases,
}
use mathlib.Core.Path.{subst}
use ethiogram.Base.Texts.{Text}
use ethiogram.Models.{World, Db, User, BusinessTransfer}
use ethiogram.Request.{transaction}
use ethiogram.Request.Preserves.{Preserves, transaction-Preserves}
use ethiogram.Transfers.{
  Characters, TransferRequest, normalize, resolve_target, pending_for, cancel, cancel_pending,
  put_transfer, new_transfer, write_transfer, has_id, set_status, accept, accepted, other_pending,
  resolve_as, initiate_transfer, cancel_transfer, accept_transfer, decline_transfer, load_incoming,
}

-- At most one transfer of each business is pending.
abbrev pub IsSingle : Db → Type 0
IsSingle db = (business_id : ℕ) → count_if (pending_for business_id) db.transfers ≤ 1

module _ {A : Type 0} (q : A → Bool) where
  count_if-modify_first_le :
      (p : A → Bool) (f : A → A) (xs : List A)
      → ((x : A) → q (f x) ≡ true → q x ≡ true)
      → count_if q (modify_first p f xs) ≤ count_if q xs
  count_if-modify_first_le p f [] h = omega arith
  count_if-modify_first_le p f (x ∷ xs) h = ground (arith, h x, count_if-modify_first_le p f xs h)

  pub count_if-modify_all_le :
      (p : A → Bool) (f : A → A) (xs : List A)
      → ((x : A) → q (f x) ≡ true → q x ≡ true)
      → count_if q (modify_all p f xs) ≤ count_if q xs
  count_if-modify_all_le p f [] h = omega arith
  count_if-modify_all_le p f (x ∷ xs) h = ground (arith, h x, count_if-modify_all_le p f xs h)

  count_if-modify_off :
      (f : A → A) (xs : List A)
      → ((x : A) → q (f x) ≡ false)
      → count_if q (modify_first q f xs) ≡ count_if q xs - 1
  count_if-modify_off f [] h = omega arith
  count_if-modify_off f (x ∷ xs) h = ground (arith, h x, count_if-modify_off f xs h)

-- A write that leaves no pending row keeps the invariant.
off :
    (p : BusinessTransfer → Bool) (f : BusinessTransfer → BusinessTransfer)
    (ts : List BusinessTransfer)
    → ((b : ℕ) (t : BusinessTransfer) → pending_for b (f t) ≡ false)
    → (b : ℕ) → count_if (pending_for b) (modify_first p f ts) ≤ count_if (pending_for b) ts
off p f ts h b =
    count_if-modify_first_le (pending_for b) p f ts (λ t e. absurd (ground (arith, h b t)))

cancel-off : (now b : ℕ) (t : BusinessTransfer) → pending_for b (cancel now t) ≡ false
cancel-off now b t = ground arith

cancel_pending-IsSingle : (b now : ℕ) (db : Db) → IsSingle db → IsSingle (cancel_pending b now db)
cancel_pending-IsSingle b now db h c =
    omega (arith, h c, off (pending_for b) (cancel now) db.transfers (cancel-off now) c)

put_transfer-IsSingle :
    (b : ℕ) (t : ℕ → BusinessTransfer) (now : ℕ) (db : Db)
    → (t db.next_id).business_id ≡ b
    → IsSingle db
    → IsSingle (put_transfer b t now db)
put_transfer-IsSingle b t now db e h c = elim (Bool-cases (nat_eq b c)) [
  | inl same ↦
      subst (λ k. count_if (pending_for k) (put_transfer b t now db).transfers ≤ 1)
        ((nat_eq_iff b c).0 same)
        (ground (
          arith,
          h b,
          count_if-modify_off (pending_for b) (cancel now) db.transfers (cancel-off now b),
        ))
  | inr other ↦
      (let kept = off (pending_for b) (cancel now) db.transfers (cancel-off now) c in
        ground (arith, h c))
]

accept-IsSingle :
    (t : BusinessTransfer) (user_id now : ℕ) (db : Db)
    → IsSingle db
    → IsSingle (accept t user_id now db)
accept-IsSingle t user_id now db h c =
    let written : List BusinessTransfer =
      modify_first (has_id t.id) (accepted user_id now) db.transfers in
    omega (
      arith,
      h c,
      off (has_id t.id) (accepted user_id now) db.transfers (λ b s. ground arith) c,
      count_if-modify_all_le (pending_for c) (other_pending t.business_id t.id) (cancel now) written
          (λ s e. absurd (ground (arith, cancel-off now c s))),
    )

resolved-IsSingle :
    (id : ℕ) (f : BusinessTransfer → BusinessTransfer) (db : Db)
    → ((b : ℕ) (t : BusinessTransfer) → pending_for b (f t) ≡ false)
    → IsSingle db
    → IsSingle (write_transfer id f db)
resolved-IsSingle id f db o h c = omega (arith, h c, off (has_id id) f db.transfers o c)

module _ (chars : Characters) where
  normalize-world :
      (kind : String) (value : Text) (w : World) → (normalize chars kind value w).1 ≡ w
  unfolding normalize
  normalize-world kind value w = ground arith

  resolve_target-world :
      (kind : String) (value : Text) (w : World) → (resolve_target chars kind value w).1 ≡ w
  unfolding resolve_target
  resolve_target-world kind value w = ground arith

  expired-IsSingle :
      (db : Db) (c : ℕ)
      → IsSingle db
      → (t : BusinessTransfer)
      → count_if (pending_for c) (write_transfer t.id (set_status "expired") db).transfers ≤ 1
  expired-IsSingle db c h t =
      resolved-IsSingle t.id (set_status "expired") db (λ b s. ground arith) h c

  cancel_transfer-IsSingle :
      (b : ℕ) (user : User) (now : ℕ) → Preserves IsSingle (cancel_transfer b user now)
  unfolding cancel_transfer
  cancel_transfer-IsSingle b user now w h c =
      ground (arith, h c, cancel_pending-IsSingle b now w.db h c)

  initiate_transfer-IsSingle :
      (b : ℕ) (body : TransferRequest) (user : User) (now : ℕ)
      → Preserves IsSingle (initiate_transfer chars b body user now)
  unfolding initiate_transfer
  initiate_transfer-IsSingle b body user now w h c = ground (
    arith,
    h c,
    normalize-world body.to_kind body.to_value w,
    λ (value : Text). resolve_target-world body.to_kind value w,
    λ (value : Text) (target : Option User).
        put_transfer-IsSingle b (λ id. new_transfer id b user.id body value target now) now w.db
          refl h c,
  )

  accept_transfer-IsSingle :
      (id : ℕ) (user : User) (now : ℕ) → Preserves IsSingle (accept_transfer chars id user now)
  unfolding accept_transfer load_incoming
  accept_transfer-IsSingle id user now w h c =
      elim (Option-cases (find_first (has_id id) w.db.transfers)) [
        | inl missing ↦ ground (arith, h c)
        | inr (t, found) ↦
            ground (arith, h c, accept-IsSingle t user.id now w.db h c, expired-IsSingle w.db c h t)
      ]

  decline_transfer-IsSingle :
      (id : ℕ) (user : User) (now : ℕ) → Preserves IsSingle (decline_transfer chars id user now)
  unfolding decline_transfer load_incoming
  decline_transfer-IsSingle id user now w h c =
      elim (Option-cases (find_first (has_id id) w.db.transfers)) [
        | inl missing ↦ ground (arith, h c)
        | inr (t, found) ↦ ground (
          arith,
          h c,
          resolved-IsSingle t.id (resolve_as "declined" user.id now) w.db (λ b s. ground arith) h c,
          expired-IsSingle w.db c h t,
        )
      ]

  -- One request to the transfers' handlers, in its transaction.
  pub data Step (w : World) : World → Type 0 where
    initiated :
        (b : ℕ) (body : TransferRequest) (user : User) (now : ℕ)
        → Step w (transaction (initiate_transfer chars b body user now) w).1
    cancelled :
        (b : ℕ) (user : User) (now : ℕ) → Step w (transaction (cancel_transfer b user now) w).1
    accepting :
        (id : ℕ) (user : User) (now : ℕ)
        → Step w (transaction (accept_transfer chars id user now) w).1
    declined :
        (id : ℕ) (user : User) (now : ℕ)
        → Step w (transaction (decline_transfer chars id user now) w).1

  pub data Reaches (w : World) : World → Type 0 where
    stay : Reaches w w
    after : {v v' : World} → Reaches w v → Step v v' → Reaches w v'

  Step-IsSingle : {w w' : World} → Step w w' → IsSingle w.db → IsSingle w'.db
  Step-IsSingle {w} (Step.initiated b body user now) h =
      transaction-Preserves IsSingle (initiate_transfer chars b body user now)
        (initiate_transfer-IsSingle b body user now) w h
  Step-IsSingle {w} (Step.cancelled b user now) h =
      transaction-Preserves IsSingle (cancel_transfer b user now)
        (cancel_transfer-IsSingle b user now) w h
  Step-IsSingle {w} (Step.accepting id user now) h =
      transaction-Preserves IsSingle (accept_transfer chars id user now)
        (accept_transfer-IsSingle id user now) w h
  Step-IsSingle {w} (Step.declined id user now) h =
      transaction-Preserves IsSingle (decline_transfer chars id user now)
        (decline_transfer-IsSingle id user now) w h

  -- Whatever requests to initiate, cancel, accept or decline have run, by any users and at any times, at
  -- most one transfer of each business is pending if this held at the start.
  pub Reaches-IsSingle : {w w' : World} → Reaches w w' → IsSingle w.db → IsSingle w'.db
  Reaches-IsSingle Reaches.stay h = h
  Reaches-IsSingle (Reaches.after r s) h = Step-IsSingle s (Reaches-IsSingle r h)
