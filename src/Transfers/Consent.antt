-- ===== src/Transfers/Consent.antt =====
-- Who may take over a business by app/api/transfers.py, and when.
use mathlib.Core.Path.{subst}
use ethiogram.Base.{
  sym, ◌∙◌, ℕ, ◌+◌, ◌≤◌, ◌<◌, String, ◌≡◌, ◌≢◌, refl, Bool, true, false, some, List, [], ◌∷◌, inl,
  inr, ◌⊎◌, arith, find_first, Option-cases, count_if, modify_first, modify_all, find_first-holds,
  find_first-modify_first, nat_eq_iff, ltb, Bool-cases, ◌==◌, eq_string,
}
use ethiogram.Base.Sequences.{IsIn, IsIn-keep}
use ethiogram.Models.{World, Db, User, BusinessTransfer, Business, Error}
use ethiogram.Request.{Result, ok, err, transaction}
use ethiogram.Transfers.{
  Characters, pending_for, cancel, own_value, user_matches, has_id, accept, accepted, other_pending,
  accept_transfer, decline_transfer, load_incoming, is_pending, not_deleted, list_incoming,
  is_listed, addressed_to,
}
use ethiogram.Transfers.Pending.{IsSingle, count_if-modify_all_le}

-- What accepting needs: the transfer is pending and has not expired, it is addressed to the user, and
-- its business is not deleted.
pub record IsAcceptable (chars : Characters) (id : ℕ) (user : User) (now : ℕ) (db : Db)
    (t : BusinessTransfer) (b : Business) : Type 0 where
  pub found : find_first (has_id id) db.transfers ≡ some t
  pub pending : is_pending t ≡ true
  pub unexpired : ltb t.expires_at now ≡ false
  pub addressed : user_matches chars user t ≡ true
  pub business : find_first (not_deleted t.business_id) db.businesses ≡ some b

ok-injective : {A : Type 0} {x y : A} → Path (Result A) (ok x) (ok y) → x ≡ y
ok-injective e = cc

one_kind : (kind a b : String) → (a == b) ≡ false → (kind == a) ≡ true → (kind == b) ≡ false
one_kind kind a b apart h =
    subst (λ k. (k == b) ≡ false) (sym ((eq_string.equal_iff kind a).0 h)) apart

find_first-modify_all :
    {A : Type 0} (p o : A → Bool) (f : A → A) (xs : List A)
    → ((x : A) → p x ≡ true → o x ≡ false)
    → ((x : A) → p (f x) ≡ p x)
    → find_first p (modify_all o f xs) ≡ find_first p xs
find_first-modify_all p o f [] h k = refl
find_first-modify_all p o f (x ∷ xs) h k =
    ground (arith, h x, k x, find_first-modify_all p o f xs h k)

-- What `accept` writes: the user owns the business, and the transfer is the user's.
accept_rows :
    (chars : Characters) (id : ℕ) (user : User) (now : ℕ) (db : Db) (t : BusinessTransfer)
    (b : Business)
    → IsAcceptable chars id user now db t b
    → (find_first (not_deleted t.business_id) (accept t user.id now db).businesses
        ≡ some (record b { owner_id = user.id }))
      × (find_first (has_id id) (accept t user.id now db).transfers ≡ some (accepted user.id now t))
accept_rows chars id user now db t b a =
    let fits : has_id id t ≡ true = find_first-holds (has_id id) db.transfers a.found in
    let own : t.id ≡ id = (nat_eq_iff t.id id).0 fits in
    (
      find_first-modify_first (not_deleted t.business_id) _ db.businesses a.business
          (find_first-holds (not_deleted t.business_id) db.businesses a.business),
      find_first-modify_all (has_id id) (other_pending t.business_id t.id) (cancel now) _
            (λ x e. ground (arith, own, nat_eq_iff x.id id)) (λ x. refl)
          ∙ subst
              (λ k.
                find_first (has_id id) (modify_first (has_id k) (accepted user.id now) db.transfers)
                ≡ some (accepted user.id now t))
              (sym own)
              (find_first-modify_first (has_id id) (accepted user.id now) db.transfers a.found
                fits),
    )

module _ (chars : Characters) where
  pub accept_transfer-eq_accept :
      (id : ℕ) (user : User) (now : ℕ) (w : World) (t : BusinessTransfer) (b : Business)
      → IsAcceptable chars id user now w.db t b
      → transaction (accept_transfer chars id user now) w
        ≡ (ok b.id, record w { db = accept t user.id now w.db })
  unfolding accept_transfer load_incoming
  accept_transfer-eq_accept id user now w t b a =
      ground (arith, a.found, a.pending, a.unexpired, a.addressed, a.business)

  -- A business changes hands only by its recipient's consent: a request to accept a transfer either
  -- meets every condition, and then writes what `accept` writes, by which the user owns the business
  -- and the transfer is accepted by the user, and answers with the business's id, or it is refused and
  -- changes nothing.
  pub accept_transfer_decides :
      (id : ℕ) (user : User) (now : ℕ) (w : World)
      → ((t : BusinessTransfer) × (b : Business) × IsAcceptable chars id user now w.db t b
          × (transaction (accept_transfer chars id user now) w
              ≡ (ok b.id, record w { db = accept t user.id now w.db }))
          × (find_first (not_deleted t.business_id) (accept t user.id now w.db).businesses
              ≡ some (record b { owner_id = user.id }))
          × (find_first (has_id id) (accept t user.id now w.db).transfers
              ≡ some (accepted user.id now t)))
        ⊎ ((e : Error) × (transaction (accept_transfer chars id user now) w ≡ (err e, w)))
  unfolding accept_transfer load_incoming
  accept_transfer_decides id user now w =
      elim (Option-cases (find_first (has_id id) w.db.transfers)) [
        | inl missing ↦ inr (Error.not_found "Transfer", ground arith)
        | inr (t, found) ↦ elim (Bool-cases (is_pending t)) [
          | inr resolved ↦ inr (Error.not_found "Transfer", ground arith)
          | inl pending ↦ elim (Bool-cases (ltb t.expires_at now)) [
            | inl expired ↦ inr (Error.validation_error "This transfer has expired.", ground arith)
            | inr unexpired ↦ elim (Bool-cases (user_matches chars user t)) [
              | inr stranger ↦ inr (Error.permission_denied, ground arith)
              | inl addressed ↦
                  elim (Option-cases (find_first (not_deleted t.business_id) w.db.businesses)) [
                    | inl gone ↦ inr (Error.not_found "Business", ground arith)
                    | inr (b, business) ↦
                        (let a : IsAcceptable chars id user now w.db t b = record {
                          found = found;
                          pending = pending;
                          unexpired = unexpired;
                          addressed = addressed;
                          business = business;
                        } in
                          (let (owner, resolved) = accept_rows chars id user now w.db t b a in
                            inl (
                              t,
                              b,
                              a,
                              accept_transfer-eq_accept id user now w t b a,
                              owner,
                              resolved,
                            )))
                  ]
            ]
          ]
        ]
      ]

  -- A pending transfer that has expired is refused to everyone, whether accepted or declined, and the
  -- database stays as it was: the row is still pending, though the code writes that it is expired.
  pub expired_stays_pending :
      (id : ℕ) (user : User) (now : ℕ) (w : World) (t : BusinessTransfer)
      → find_first (has_id id) w.db.transfers ≡ some t
      → is_pending t ≡ true
      → t.expires_at < now
      → let refusal = Error.validation_error "This transfer has expired." in
        (transaction (accept_transfer chars id user now) w ≡ (err refusal, w))
        × (transaction (decline_transfer chars id user now) w ≡ (err refusal, w))
  unfolding accept_transfer decline_transfer load_incoming
  expired_stays_pending id user now w t found pending expired =
      let late : ltb t.expires_at now ≡ true = ground arith in
      (ground (arith, found, pending, late), ground (arith, found, pending, late))

  addressed_to-user_matches :
      (user : User) (t : BusinessTransfer)
      → user.telegram_id ≢ some 0
      → addressed_to chars user t ≡ true
      → user_matches chars user t ≡ true
  unfolding own_value
  addressed_to-user_matches user t nonzero h = ground (
    arith,
    nonzero,
    one_kind t.to_kind "telegram_id" "telegram_username" refl,
    one_kind t.to_kind "telegram_id" "email" refl,
    one_kind t.to_kind "telegram_username" "email" refl,
  )

  -- A transfer that `list_incoming` shows a user can be accepted by that user at that time, where its id
  -- is its own (it is the row that the id finds) and the user's Telegram id is not 0.
  pub list_incoming-accept :
      (user : User) (now : ℕ) (w : World) (t : BusinessTransfer) (listed : List BusinessTransfer)
      → (list_incoming chars user now w).0 ≡ ok listed
      → IsIn t listed
      → find_first (has_id t.id) w.db.transfers ≡ some t
      → user.telegram_id ≢ some 0
      → (b : Business) × IsAcceptable chars t.id user now w.db t b
        × (transaction (accept_transfer chars t.id user now) w
            ≡ (ok b.id, record w { db = accept t user.id now w.db }))
  unfolding list_incoming
  list_incoming-accept user now w t listed e m found nonzero =
      let shown : is_listed chars user now w.db t ≡ true =
        IsIn-keep (is_listed chars user now w.db) w.db.transfers
          (subst (IsIn t) (sym (ok-injective e)) m) in
      elim (Option-cases (find_first (not_deleted t.business_id) w.db.businesses)) [
        | inl gone ↦ absurd (ground arith)
        | inr (b, business) ↦
            (let a : IsAcceptable chars t.id user now w.db t b = record {
              found = found;
              pending = ground arith;
              unexpired = ground arith;
              addressed = addressed_to-user_matches user t nonzero (ground arith);
              business = business;
            } in
              (b, a, accept_transfer-eq_accept t.id user now w t b a))
      ]

count_if-modify_first :
    {A : Type 0} (q p : A → Bool) (f : A → A) (xs : List A) {x : A}
    → find_first p xs ≡ some x
    → q x ≡ true
    → q (f x) ≡ false
    → count_if q (modify_first p f xs) + 1 ≡ count_if q xs
count_if-modify_first q p f [] e h k = cc
count_if-modify_first q p f (y ∷ xs) {x} e h k =
    ground (arith, count_if-modify_first q p f xs {x = x})

no_pending :
    (t : BusinessTransfer) (user_id now : ℕ) (db : Db) (id : ℕ)
    → find_first (has_id id) db.transfers ≡ some t
    → t.id ≡ id
    → is_pending t ≡ true
    → count_if (pending_for t.business_id) db.transfers ≤ 1
    → count_if (pending_for t.business_id) (accept t user_id now db).transfers ≡ 0
no_pending t user_id now db id found own pending single =
    let written : List BusinessTransfer =
      modify_first (has_id t.id) (accepted user_id now) db.transfers in
    let mine : find_first (has_id t.id) db.transfers ≡ some t =
      subst (λ k. find_first (has_id k) db.transfers ≡ some t) (sym own) found in
    omega (
      arith,
      count_if-modify_first (pending_for t.business_id) (has_id t.id) (accepted user_id now)
          db.transfers {x = t} mine (ground (arith, pending)) (ground arith),
      count_if-modify_all_le (pending_for t.business_id) (other_pending t.business_id t.id)
          (cancel now) written (λ s e. absurd (ground arith)),
    )

-- After an acceptance that meets its conditions the user owns the business, the transfer is
-- accepted, and no transfer of the business is pending, if at most one of each business was before.
pub accept_effect :
    (chars : Characters) (id : ℕ) (user : User) (now : ℕ) (w : World) (t : BusinessTransfer)
    (b : Business)
    → IsAcceptable chars id user now w.db t b
    → IsSingle w.db
    → let db' = (transaction (accept_transfer chars id user now) w).1.db in
      (find_first (not_deleted t.business_id) db'.businesses
        ≡ some (record b { owner_id = user.id }))
      × (find_first (has_id id) db'.transfers ≡ some (accepted user.id now t))
      × (count_if (pending_for t.business_id) db'.transfers ≡ 0)
accept_effect chars id user now w t b a single =
    let own : t.id ≡ id =
      (nat_eq_iff t.id id).0 (find_first-holds (has_id id) w.db.transfers a.found) in
    let (owner, resolved) = accept_rows chars id user now w.db t b a in
    rw (accept_transfer-eq_accept chars id user now w t b a) (
      owner,
      resolved,
      no_pending t user.id now w.db id a.found own a.pending (single t.business_id),
    )
