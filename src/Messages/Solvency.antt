-- ===== src/Messages/Solvency.antt =====
-- The balances of customers over the pipeline of app/api/webhooks.py: who pays is decided before the
-- answer, and the price is taken after it.
use mathlib.Core.Path.{subst}
use ethiogram.Base.{
  ℕ, ◌≡◌, refl, sym, Bool, true, Option, none, some, List, [], ◌∷◌, inl, inr, arith, All,
  All-modify_first, find_first, modify_first, Bool-cases, eq_string,
}
use ethiogram.Base.Int.{ℤ, pos, ◌≤ℤ◌, int_laws}
use ethiogram.Models.{World, AlertType, Db, Bot, Business, Conversation}
use ethiogram.Metering.{get_balance, log_alert, find_wallet}
use ethiogram.Messages.{
  Payer, user_pays, if_covered, decide_payer, is_conversation, bill_conversation, bill_reply,
  reply_cost, charge_etg, Spent, Envelope, Reply, record_reply, note_reply, note_cost, alert, spend,
  count_messages, raise_alert, check_wallet_alerts,
}
use ethiogram.Messages.Bills.{reply_cost-keeps, settle_wallet-conversations}

-- No customer owes the business.
abbrev pub IsSolvent : Db → Type 0
IsSolvent db = All (λ c. pos 0 ≤ℤ c.etg_balance) db.conversations

-- The balance of the conversation covers the price, if the customer pays.
unfoldable pub Covers : ℕ → ℕ → Payer → Db → Type 0
Covers id price payer db =
    (c : Conversation)
    → find_first (is_conversation id) db.conversations ≡ some c
    → user_pays payer ≡ true
    → pos price ≤ℤ c.etg_balance

if_covered-none :
    (payer : Payer) (b : Business) (c : Conversation)
    → (if_covered payer b c).1 ≡ none
    → pos b.service_price ≤ℤ c.etg_balance
if_covered-none payer b c e = ground arith

-- Where the message is let through and the customer pays, the balance covers the price.
pub decide_payer-covers :
    (b : Business) (c : Conversation)
    → (decide_payer b c).1 ≡ none
    → user_pays (decide_payer b c).0 ≡ true
    → pos b.service_price ≤ℤ c.etg_balance
unfolding decide_payer
decide_payer-covers b c through pays =
    ground (arith, if_covered-none Payer.user b c, if_covered-none Payer.both b c)

All-modify_found {ℓ κ} :
    {A : Type ℓ} (P : A → Type κ) (p : A → Bool) (f : A → A) (xs : List A)
    → ((x : A) → find_first p xs ≡ some x → P x → P (f x))
    → All P xs
    → All P (modify_first p f xs)
All-modify_found P p f [] h a = tt
All-modify_found P p f (x ∷ xs) h a = elim (Bool-cases (p x)) [
  | inl e ↦ rw e (h x (rw e refl) a.0, a.1)
  | inr e ↦ rw e (a.0, All-modify_found P p f xs (λ y found. h y (rw e found)) a.1)
]

some_inj {ℓ} : {A : Type ℓ} {x y : A} → some x ≡ some y → x ≡ y
some_inj e = cc

find_first-modified {ℓ} :
    {A : Type ℓ} (p : A → Bool) (f : A → A) (xs : List A) (y : A)
    → ((x : A) → p x ≡ true → p (f x) ≡ true)
    → find_first p (modify_first p f xs) ≡ some y
    → (x : A) × (find_first p xs ≡ some x) × (f x ≡ y)
find_first-modified p f [] y keep e = absurd (cc)
find_first-modified p f (x ∷ xs) y keep e = elim (Bool-cases (p x)) [
  | inl fits ↦ (x, rw fits refl, some_inj (rw (fits, keep x fits) at e))
  | inr misses ↦
      (let (z, found, same) = find_first-modified p f xs y keep (rw misses at (rw misses at e)) in
        (z, rw misses found, same))
]

-- A write that leaves the balance of the conversation alone.
write-Covers :
    (id price : ℕ) (payer : Payer) (f : Conversation → Conversation)
    → ((c : Conversation) → ((f c).id ≡ c.id) × ((f c).etg_balance ≡ c.etg_balance))
    → (db db' : Db) → db'.conversations ≡ modify_first (is_conversation id) f db.conversations
    → Covers id price payer db
    → Covers id price payer db'
unfolding Covers
write-Covers id price payer f same db db' written h c found pays =
    let (x, old, e) =
      find_first-modified (is_conversation id) f db.conversations c (λ x fits. rw (same x).0 fits)
        (rw written at found) in
    let enough : pos price ≤ℤ x.etg_balance = h x old pays in rw (← e) (rw (same x).1 enough)

pub write-IsSolvent :
    (id : ℕ) (f : Conversation → Conversation)
    → ((c : Conversation) → (f c).etg_balance ≡ c.etg_balance)
    → (db db' : Db) → db'.conversations ≡ modify_first (is_conversation id) f db.conversations
    → IsSolvent db
    → IsSolvent db'
write-IsSolvent id f same db db' written h = rw written (
    All-modify_first {P = λ (c : Conversation). pos 0 ≤ℤ c.etg_balance} (is_conversation id) f
      db.conversations (λ c fits enough. rw (same c) enough) h)

bill_conversation-solvent :
    (payer : Payer) (cost : ℕ) (b : Business) (c : Conversation)
    → (user_pays payer ≡ true → pos b.service_price ≤ℤ c.etg_balance)
    → pos 0 ≤ℤ c.etg_balance
    → pos 0 ≤ℤ (bill_conversation payer cost b c).etg_balance
bill_conversation-solvent Payer.business cost b c covers h = h
bill_conversation-solvent Payer.user cost b c covers h = omega (int_laws, covers refl)
bill_conversation-solvent Payer.both cost b c covers h = omega (int_laws, covers refl)

bill_reply-IsSolvent :
    (b : Business) (id bot_id : ℕ) (s : Spent) (payer : Payer) (cost : ℕ) (w : World)
    → IsSolvent w.db
    → Covers id b.service_price payer w.db
    → IsSolvent (bill_reply b id bot_id s payer cost w).db
unfolding Covers
bill_reply-IsSolvent b id bot_id s payer cost w h covers =
    rw (settle_wallet-conversations payer cost b id (find_wallet b.id w.db) _) (
      All-modify_found (λ (c : Conversation). pos 0 ≤ℤ c.etg_balance) (is_conversation id)
        (bill_conversation payer cost b) w.db.conversations
        (λ c found. bill_conversation-solvent payer cost b c (covers c found)) h)

-- The price is taken from a balance that covers it.
charge_etg-IsSolvent :
    (b : Business) (id bot_id : ℕ) (s : Spent) (payer : Payer) (w : World)
    → IsSolvent w.db
    → Covers id b.service_price payer w.db
    → IsSolvent (charge_etg b id bot_id s payer w).1.db
unfolding charge_etg
charge_etg-IsSolvent b id bot_id s payer w h covers =
    let (cost, w') = reply_cost s.model_id s.input_tokens s.output_tokens w in
    let same = (reply_cost-keeps s.model_id s.input_tokens s.output_tokens w).0 in
    bill_reply-IsSolvent b id bot_id s payer cost w' (subst IsSolvent (sym same) h)
      (subst (Covers id b.service_price payer) (sym same) covers)

pub IsSolvent-same :
    (db db' : Db) → db'.conversations ≡ db.conversations → IsSolvent db → IsSolvent db'
IsSolvent-same db db' same h = rw same h

pub Covers-same :
    (id price : ℕ) (payer : Payer) (db db' : Db)
    → db'.conversations ≡ db.conversations
    → Covers id price payer db
    → Covers id price payer db'
unfolding Covers
Covers-same id price payer db db' same h c found = h c (rw same at found)

raise_alert-conversations :
    (b : ℕ) (v : ℤ) (bot : Bot) (now : ℕ) (level : Option AlertType) (w : World)
    → (raise_alert b v bot now level w).db.conversations ≡ w.db.conversations
unfolding log_alert
raise_alert-conversations b v bot now none w = refl
raise_alert-conversations b v bot now (some AlertType.zero) w = refl
raise_alert-conversations b v bot now (some level) w = refl

pub get_balance-db : (b : ℕ) (w : World) → (get_balance b w).1.db ≡ w.db
unfolding get_balance
get_balance-db b w = ground arith

alert-IsSolvent :
    (bot : Bot) (now : ℕ) (w : World) → IsSolvent w.db → IsSolvent (alert bot now w).db
unfolding alert check_wallet_alerts
alert-IsSolvent bot now w h =
    let (v, w') = get_balance bot.business_id w in
    IsSolvent-same w'.db (alert bot now w).db
      (raise_alert-conversations bot.business_id v bot now _ w')
      (subst IsSolvent (sym (get_balance-db bot.business_id w)) h)

pub record_reply-IsSolvent :
    (e : Envelope) (bot : Bot) (b : Business) (c : Conversation) (payer : Payer) (r : Reply)
    (now : ℕ) (w : World)
    → IsSolvent w.db
    → Covers c.id b.service_price payer w.db
    → IsSolvent (record_reply e bot b c payer r now w).db
unfolding record_reply note_reply note_cost
record_reply-IsSolvent e bot b c payer r now w h covers =
    let w₁ : World = record w { db = note_reply e bot c r now w.db } in
    let (cost, w₂) = charge_etg b c.id bot.id r.spent payer w₁ in
    let charged : IsSolvent w₂.db =
      charge_etg-IsSolvent b c.id bot.id r.spent payer w₁
        (write-IsSolvent c.id (count_messages now) (λ c. refl) w.db w₁.db refl h)
        (write-Covers c.id b.service_price payer (count_messages now) (λ c. (refl, refl)) w.db w₁.db
          refl covers) in
    alert-IsSolvent bot now (record w₂ { db = note_cost bot c cost w₂.db })
      (write-IsSolvent c.id (spend cost) (λ c. refl) w₂.db (note_cost bot c cost w₂.db) refl
        charged)
