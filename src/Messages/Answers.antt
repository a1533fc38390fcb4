-- ===== src/Messages/Answers.antt =====
-- The answer to a message in app/api/webhooks.py, behind the decision who pays for it, keeps the customers'
-- balances.
use ethiogram.Base.{
  ℕ, ◌≡◌, refl, sym, eq_string, ◌∙◌, nat_eq_iff, find_first-holds, modify_first, Bool, true, false,
  Option, none, some, arith, find_first, if◌then◌else◌,
}
use ethiogram.Models.{World, Db, Bot, Business, Conversation}
use ethiogram.Request.{Result, ok, err, Action, pure, continue, ◌>>=◌}
use ethiogram.Request.Preserves.{Preserves}
use ethiogram.Messages.{
  Payer, Block, decide_payer, apply_monthly_reset, is_conversation, Envelope, Reply, Services,
  record_reply, reloaded, answer, bill, decided,
}
use ethiogram.Messages.Solvency.{
  IsSolvent, Covers, IsSolvent-same, Covers-same, write-IsSolvent, record_reply-IsSolvent,
  decide_payer-covers,
}

abbrev pub KeepsConversations : {A : Type 0} → Action A → Type 0
KeepsConversations m = (w : World) → (m w).1.db.conversations ≡ w.db.conversations

apply_monthly_reset-balance :
    (month : ℕ → ℕ) (now : ℕ) (c : Conversation)
    → (apply_monthly_reset month now c).etg_balance ≡ c.etg_balance
unfolding apply_monthly_reset
apply_monthly_reset-balance month now c = ground arith

some_inj : {x y : Conversation} → some x ≡ some y → x ≡ y
some_inj e = cc

-- The flows that the pipeline calls do not write the accounts of customers.
pub record LeavesAccounts (services : Services) : Type 0 where
  pub platform :
      (e : Envelope) (w : World)
      → (services.platform_menu e w).db.conversations ≡ w.db.conversations
  pub add_product : (e : Envelope) (b : Bot) → KeepsConversations (services.add_product e b)
  pub owner_menu : (e : Envelope) (b : Bot) → KeepsConversations (services.owner_menu e b)
  pub booking :
      (e : Envelope) (b : Bot) (c : Conversation) → KeepsConversations (services.booking e b c)
  pub process_message :
      (e : Envelope) (c : Conversation) → KeepsConversations (services.process_message e c)

pub keeps-IsSolvent : {A : Type 0} (m : Action A) → KeepsConversations m → Preserves IsSolvent m
keeps-IsSolvent m k w h = IsSolvent-same w.db (m w).1.db (k w) h

bind-turns :
    {A B : Type 0} (P Q : Db → Type 0) (m : Action A) (k : A → Action B)
    → Preserves P m
    → ((db : Db) → P db → Q db)
    → ((a : A) (w : World) → P w.db → Q (k a w).1.db)
    → (w : World) → P w.db
    → Q ((m >>= k) w).1.db
bind-turns {A} {B} P Q m k h weaken g w p = go (m w) (h w p)
  where
    go : (r : Result A × World) → P r.1.db → Q (continue r k).1.db
    go (ok a, w) p = g a w p
    go (err e, w) p = weaken w.db p

module _ (services : Services) (leaves : LeavesAccounts services) (now : ℕ) where
  -- Solvent, and the price covered where the customer pays.
  abbrev Ready : Business → ℕ → Payer → Db → Type 0
  Ready b id payer db = IsSolvent db × Covers id b.service_price payer db

  Ready-keeps :
      {A : Type 0} (b : Business) (id : ℕ) (payer : Payer) (m : Action A)
      → KeepsConversations m
      → Preserves (Ready b id payer) m
  Ready-keeps b id payer m k w h = (
    IsSolvent-same w.db (m w).1.db (k w) h.0,
    Covers-same id b.service_price payer w.db (m w).1.db (k w) h.1,
  )

  answer-IsSolvent :
      (e : Envelope) (bot : Bot) (b : Business) (c : Conversation) (payer : Payer) (w : World)
      → Ready b c.id payer w.db
      → IsSolvent (answer services e bot b c payer now w).1.db
  answer-IsSolvent e bot b c payer =
      bind-turns (Ready b c.id payer) IsSolvent (services.process_message e c) _
        (Ready-keeps b c.id payer (services.process_message e c) (leaves.process_message e c))
        (λ db h. ready db h) (λ r w h. recorded r (services.sends e r.text) w h)
    where
      ready : (db : Db) → Ready b c.id payer db → IsSolvent db
      ready db h = h.0

      recorded :
          (r : Reply) (sent : Bool) (w : World)
          → Ready b c.id payer w.db
          → IsSolvent
              ((if sent then (λ w. (ok tt, record_reply e bot b c payer r now w)) else pure tt)
                w).1.db
      recorded r true w h = record_reply-IsSolvent e bot b c payer r now w h.0 h.1
      recorded r false w h = h.0

  decided-IsSolvent :
      (e : Envelope) (bot : Bot) (b : Business) (c : Conversation) (payer : Payer)
      (block : Option Block) (w : World)
      → IsSolvent w.db
      → (block ≡ none → Covers c.id b.service_price payer w.db)
      → IsSolvent (decided services e bot b c now payer block w).1.db
  decided-IsSolvent e bot b c payer (some block) w h covers = h
  decided-IsSolvent e bot b c payer none w h covers =
      bind-turns (Ready b c.id payer) IsSolvent (services.booking e bot c) _
        (Ready-keeps b c.id payer (services.booking e bot c) (leaves.booking e bot c))
        (λ db h. ready db h) (λ handled w h. either handled w h) w (h, covers refl)
    where
      ready : (db : Db) → Ready b c.id payer db → IsSolvent db
      ready db h = h.0

      either :
          (handled : Bool) (w : World)
          → Ready b c.id payer w.db
          → IsSolvent ((if handled then pure tt else answer services e bot b c payer now) w).1.db
      either true w h = h.0
      either false w h = answer-IsSolvent e bot b c payer w h

  -- The conversation that is read again is the one that is charged.
  reloaded-Covers :
      (b : Business) (c : Conversation) (o : Option Conversation) (db : Db)
      → find_first (is_conversation c.id) db.conversations ≡ o
      → let reset = reloaded c o in
        (decide_payer b reset).1 ≡ none
        → Covers reset.id b.service_price (decide_payer b reset).0 db
  unfolding Covers
  reloaded-Covers b c none db missing through c' found pays = absurd (cc)
  reloaded-Covers b c (some fresh) db there through c' found pays =
      let same_id : fresh.id ≡ c.id =
        (nat_eq_iff fresh.id c.id).0
          (find_first-holds (is_conversation c.id) db.conversations there) in
      let same : fresh ≡ c' = some_inj (sym there ∙ (rw same_id at found)) in
      rw (← same) (decide_payer-covers b fresh through pays)

  pub bill-IsSolvent :
      (e : Envelope) (bot : Bot) (b : Business) (c : Conversation)
      → Preserves IsSolvent (bill services e bot b c now)
  bill-IsSolvent e bot b c w h =
      let db' : Db = record w.db {
        conversations =
            modify_first (is_conversation c.id) (apply_monthly_reset services.month now)
              w.db.conversations;
      } in
      let o = find_first (is_conversation c.id) db'.conversations in
      let reset = reloaded c o in
      decided-IsSolvent e bot b reset (decide_payer b reset).0 (decide_payer b reset).1
        (record w { db = db' })
        (write-IsSolvent c.id (apply_monthly_reset services.month now)
          (apply_monthly_reset-balance services.month now) w.db db' refl h)
        (reloaded-Covers b c o db' refl)
