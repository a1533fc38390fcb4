-- ===== src/Messages/Bills.antt =====
-- `_charge_etg` of app/api/webhooks.py against the wallet's ledger, the balance cache and the customer's
-- own account.
use ethiogram.Base.{
  ℕ, ◌+◌, ◌≡◌, refl, ◌∙◌, ◌∷◌, modify_first, not, ◌&&◌, Option, none, some, inl, inr, arith, lookup,
  lookup-insert_self, find_first, find_first-holds, find_first-modify_first, nat_eq, eq_nat,
  eq_string, Bool-cases, ap, if◌then◌else◌, String,
}
use ethiogram.Base.Int.{ℤ, pos, ◌+ℤ◌, ◌-ℤ◌, ◌≤ℤ◌, max_zero, int_laws}
use ethiogram.Models.{World, Db, Business, Conversation, TokenWallet}
use ethiogram.Metering.Cache.{find_wallet-modify_self}
use ethiogram.Metering.Ledger.{IsAudited, IsAudited-row, IsAudited-db, max_zero-ge}
use ethiogram.Messages.{
  Payer, business_pays, user_pays, model_price, reply_cost, Spent, charge_etg, bill_conversation,
  pay_cost, earn_markup, post, post_cost, post_markup, settle_wallet, bill_reply, reply_event,
  is_conversation,
}

-- A reading of the price touches neither the database nor the balances.
model_price-keeps :
    (m : String) (w : World)
    → ((model_price m w).1.db ≡ w.db) × ((model_price m w).1.redis.balances ≡ w.redis.balances)
unfolding model_price
model_price-keeps m w = ground arith

pub reply_cost-keeps :
    (m : String) (i o : ℕ) (w : World)
    → ((reply_cost m i o w).1.db ≡ w.db)
      × ((reply_cost m i o w).1.redis.balances ≡ w.redis.balances)
unfolding reply_cost
reply_cost-keeps m i o w = ground (arith, model_price-keeps m w)

-- What a reply leaves of the wallet's balance: the cost is taken from it, down to zero, where the
-- business pays, and the markup is added to it where the customer does.
abbrev pub left_of : Payer → ℕ → Business → ℤ → ℤ
left_of Payer.business cost b v = max_zero (v -ℤ pos cost)
left_of Payer.user cost b v = v +ℤ pos b.business_markup
left_of Payer.both cost b v = max_zero (v -ℤ pos cost) +ℤ pos b.business_markup

abbrev billed : Payer → ℕ → Business → TokenWallet → TokenWallet
billed payer cost b t =
    let paid = if business_pays payer then pay_cost cost t else t in
    if user_pays payer && not (nat_eq b.business_markup 0)
    then earn_markup b.business_markup paid
    else paid

add_zero : (v : ℤ) → v ≡ v +ℤ pos 0
add_zero v = omega int_laws

billed-balance :
    (payer : Payer) (cost : ℕ) (b : Business) (t : TokenWallet)
    → (billed payer cost b t).balance ≡ left_of payer cost b t.balance
billed-balance Payer.business cost b t = refl
billed-balance Payer.user cost b t = ground (arith, add_zero t.balance)
billed-balance Payer.both cost b t = ground (arith, add_zero (max_zero (t.balance -ℤ pos cost)))

module _ (base : ℤ) (b : Business) (conversation_id : ℕ) where
  post-IsAudited :
      (kind description : String) (amount : ℤ) (f : TokenWallet → TokenWallet) (t : TokenWallet)
      (db : Db)
      → ((t : TokenWallet) → ((f t).id ≡ t.id) × ((f t).business_id ≡ t.business_id))
      → t.balance +ℤ amount ≤ℤ (f t).balance
      → IsAudited base b.id db t
      → IsAudited base b.id (post b.id kind description conversation_id amount t f db) (f t)
  post-IsAudited kind description amount f t db same le a =
      IsAudited-row base b.id db _ t (f t) _ a
        (find_wallet-modify_self f (λ t. (same t).1) b.id db a.found) (same t).0 refl refl refl refl
        le

  post_cost-IsAudited :
      (payer : Payer) (cost : ℕ) (t : TokenWallet) (db : Db)
      → IsAudited base b.id db t
      → let (t', db') = post_cost payer cost b conversation_id t db in IsAudited base b.id db' t'
  post_cost-IsAudited payer cost t db a = elim (Bool-cases (business_pays payer)) [
    | inl pays ↦ rw pays (
        post-IsAudited "usage" "AI reply" (pos 0 -ℤ pos cost) (pay_cost cost) t db
          (λ t. (refl, refl)) (omega (int_laws, max_zero-ge (t.balance -ℤ pos cost))) a)
    | inr free ↦ rw free a
  ]

  post_markup-IsAudited :
      (payer : Payer) (t : TokenWallet) (db : Db)
      → IsAudited base b.id db t
      → let (t', db') = post_markup payer b conversation_id t db in IsAudited base b.id db' t'
  post_markup-IsAudited payer t db a =
      elim (Bool-cases (user_pays payer && not (nat_eq b.business_markup 0))) [
        | inl pays ↦ rw pays (
            post-IsAudited "markup" "User-paid message markup" (pos b.business_markup)
              (earn_markup b.business_markup) t db (λ t. (refl, refl)) (omega int_laws) a)
        | inr free ↦ rw free a
      ]

  settle_wallet-IsAudited :
      (payer : Payer) (cost : ℕ) (t : TokenWallet) (w : World)
      → IsAudited base b.id w.db t
      → IsAudited base b.id
          (settle_wallet payer cost b conversation_id (some t) w).db
          (post_markup payer b conversation_id
            (post_cost payer cost b conversation_id t w.db).0
            (post_cost payer cost b conversation_id t w.db).1).0
  settle_wallet-IsAudited payer cost t w a =
      let (t₁, db₁) = post_cost payer cost b conversation_id t w.db in
      post_markup-IsAudited payer t₁ db₁ (post_cost-IsAudited payer cost t w.db a)

settled-billed :
    (payer : Payer) (cost : ℕ) (b : Business) (conversation_id : ℕ) (t : TokenWallet) (db : Db)
    → (post_markup payer b conversation_id
        (post_cost payer cost b conversation_id t db).0
        (post_cost payer cost b conversation_id t db).1).0
      ≡ billed payer cost b t
settled-billed Payer.business cost b id t db = refl
settled-billed Payer.user cost b id t db = ground arith
settled-billed Payer.both cost b id t db = ground arith

-- What a reply adds to the customer's free-tier use, and what it takes from the customer's balance.
abbrev pub counted : Payer → ℕ → ℕ
counted Payer.user cost = 0
counted _ cost = cost

abbrev pub price_for : Payer → Business → ℕ
price_for Payer.business b = 0
price_for _ b = b.service_price

bill_conversation-accounts :
    (payer : Payer) (cost : ℕ) (b : Business) (c : Conversation)
    → ((bill_conversation payer cost b c).monthly_etg_used
        ≡ c.monthly_etg_used + counted payer cost)
      × ((bill_conversation payer cost b c).etg_balance +ℤ pos (price_for payer b) ≡ c.etg_balance)
bill_conversation-accounts Payer.business cost b c = (refl, omega int_laws)
bill_conversation-accounts Payer.user cost b c = (omega arith, omega int_laws)
bill_conversation-accounts Payer.both cost b c = (refl, omega int_laws)

IsAudited-tables :
    (base : ℤ) (b : ℕ) (db db' : Db) (t : TokenWallet)
    → db'.wallets ≡ db.wallets
    → db'.transactions ≡ db.transactions
    → IsAudited base b db t
    → IsAudited base b db' t
IsAudited-tables base b db db' t wallets rows a = record {
  found = rw wallets a.found;
  chain = rw rows a.chain;
  latest = rw rows a.latest;
  amounts = rw rows a.amounts;
}

pub settle_wallet-conversations :
    (payer : Payer) (cost : ℕ) (b : Business) (id : ℕ) (o : Option TokenWallet) (w : World)
    → (settle_wallet payer cost b id o w).db.conversations ≡ w.db.conversations
settle_wallet-conversations payer cost b id none w = refl
settle_wallet-conversations payer cost b id (some t) w = ground arith

-- The accounts of a wallet and of a conversation after a reply of that cost.
Billed : ℤ → Business → ℕ → Payer → ℕ → TokenWallet → Conversation → World → Type 0
Billed base b id payer cost t c w =
    ((t' : TokenWallet) × IsAudited base b.id w.db t'
      × (t'.balance ≡ left_of payer cost b t.balance)
      × (lookup b.id w.redis.balances ≡ some t'.balance))
    × ((c' : Conversation) × (find_first (is_conversation id) w.db.conversations ≡ some c')
        × (c'.monthly_etg_used ≡ c.monthly_etg_used + counted payer cost)
        × (c'.etg_balance +ℤ pos (price_for payer b) ≡ c.etg_balance))

bill_reply-Billed :
    (base : ℤ) (b : Business) (id bot_id : ℕ) (s : Spent) (payer : Payer) (cost : ℕ) (w : World)
    {t : TokenWallet} {c : Conversation}
    → IsAudited base b.id w.db t
    → find_first (is_conversation id) w.db.conversations ≡ some c
    → Billed base b id payer cost t c (bill_reply b id bot_id s payer cost w)
unfolding Billed
bill_reply-Billed base b id bot_id s payer cost w {t} {c} a found =
    let w₂ : World = record w {
      db = record w.db {
        conversations =
            modify_first (is_conversation id) (bill_conversation payer cost b) w.db.conversations;
        usage_events = reply_event payer cost b bot_id id s ∷ w.db.usage_events;
      };
    } in
    let a₂ : IsAudited base b.id w₂.db t = IsAudited-tables base b.id w.db w₂.db t refl refl a in
    rw (a.found, settle_wallet)
      (
        (
          _,
          settle_wallet-IsAudited base b id payer cost t w₂ a₂,
          ap (λ (x : TokenWallet). x.balance) (settled-billed payer cost b id t w₂.db)
              ∙ billed-balance payer cost b t,
          lookup-insert_self b.id _ w₂.redis.balances,
        ),
        (
          bill_conversation payer cost b c,
          ap (find_first (is_conversation id))
                (settle_wallet-conversations payer cost b id (some t) w₂)
              ∙ find_first-modify_first (is_conversation id) (bill_conversation payer cost b)
                  w.db.conversations found
                  (find_first-holds (is_conversation id) w.db.conversations found),
          (bill_conversation-accounts payer cost b c).0,
          (bill_conversation-accounts payer cost b c).1,
        ),
      )

-- If a business has a wallet whose ledger rows form a chain that ends at its balance and whose amounts
-- do not exceed its growth, and the conversation exists, then after the charge for a reply this still
-- holds of the wallet. Its balance has lost the cost, down to zero, if the business pays, and has gained
-- the markup if the customer does; the cache holds the new balance. The customer's balance has lost
-- the service price if the customer pays, and the free-tier use has grown by the cost if the business
-- pays.
pub charge_etg_lem :
    (base : ℤ) (b : Business) (id bot_id : ℕ) (s : Spent) (payer : Payer) (w : World)
    {t : TokenWallet} {c : Conversation}
    → IsAudited base b.id w.db t
    → find_first (is_conversation id) w.db.conversations ≡ some c
    → let (cost, w') = charge_etg b id bot_id s payer w in
      ((t' : TokenWallet) × IsAudited base b.id w'.db t'
        × (t'.balance ≡ left_of payer cost b t.balance)
        × (lookup b.id w'.redis.balances ≡ some t'.balance))
      × ((c' : Conversation) × (find_first (is_conversation id) w'.db.conversations ≡ some c')
          × (c'.monthly_etg_used ≡ c.monthly_etg_used + counted payer cost)
          × (c'.etg_balance +ℤ pos (price_for payer b) ≡ c.etg_balance))
unfolding charge_etg Billed
charge_etg_lem base b id bot_id s payer w {t} {c} a found =
    let (cost, w') = reply_cost s.model_id s.input_tokens s.output_tokens w in
    let same = (reply_cost-keeps s.model_id s.input_tokens s.output_tokens w).0 in
    bill_reply-Billed base b id bot_id s payer cost w' {t = t} {c = c}
      (IsAudited-db base b.id w.db w'.db t same a) (rw same found)
