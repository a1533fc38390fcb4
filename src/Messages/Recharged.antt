-- ===== src/Messages/Recharged.antt =====
-- How a customer who ran dry gets answers again: `credit_customer` of app/api/businesses.py, and the gate of
-- the wallet and of the customer's balance in app/api/webhooks.py.
use ethiogram.Base.{
  ℕ, ◌≤◌, ◌≡◌, refl, ◌∙◌, ap, true, false, ◌&&◌, none, some, arith, List, find_first,
  find_first-holds, find_first-modify_first, find_first-modify_same, modify_first, eq_nat, leb,
  eq_string, nat_eq_iff, Bool-cases, inl, inr,
}
use ethiogram.Base.Int.{pos, ◌+ℤ◌, ◌≤ℤ◌, leb_ℤ}
use ethiogram.Models.{World, Db, Bot, Business, Conversation}
use ethiogram.Request.{Result, ok}
use ethiogram.Agents.{owns_business}
use ethiogram.Metering.{get_balance}
use ethiogram.Messages.{
  Payer, Block, if_covered, decide_payer, user_pays, is_conversation, is_customer, is_customer_of,
  add_balance, credit_customer, apply_monthly_reset, same_month, detect_language, Envelope,
  get_or_create_conversation, business_pays_cost, Services, asks_balance, unless, answer, decided,
  gate,
}
use ethiogram.Messages.Solvency.{get_balance-db}

-- More balance never turns a message that waits for a recharge into a refused one.
if_covered-recharged :
    (payer p : Payer) (b : Business) (c : Conversation) (amount : ℕ)
    → if_covered payer b c ≡ (p, some Block.recharge)
    → pos b.service_price ≤ℤ c.etg_balance +ℤ pos amount
    → if_covered payer b (add_balance amount c) ≡ (p, none)
if_covered-recharged payer p b c amount e enough = ground arith

decide_payer-recharged :
    (b : Business) (c : Conversation) (amount : ℕ) (p : Payer)
    → decide_payer b c ≡ (p, some Block.recharge)
    → pos b.service_price ≤ℤ c.etg_balance +ℤ pos amount
    → decide_payer b (add_balance amount c) ≡ (p, none)
unfolding decide_payer
decide_payer-recharged b c amount p e enough = ground (
  arith,
  if_covered-recharged Payer.user p b c amount,
  if_covered-recharged Payer.both p b c amount,
)

recharge-user_pays :
    (b : Business) (c : Conversation) (p : Payer)
    → decide_payer b c ≡ (p, some Block.recharge)
    → user_pays p ≡ true
unfolding decide_payer
recharge-user_pays b c p e = ground arith

-- The conversation as step 9c reads it: with the language of the text, and in its month.
abbrev pub noted : (month : ℕ → ℕ) → Envelope → (now : ℕ) → Conversation → Conversation
noted month e now c =
    apply_monthly_reset month now (record c { detected_language = detect_language e.text })

noted-recharged :
    (month : ℕ → ℕ) (e : Envelope) (now amount : ℕ) (b : Business) (c : Conversation) (p : Payer)
    → decide_payer b (noted month e now c) ≡ (p, some Block.recharge)
    → pos b.service_price ≤ℤ c.etg_balance +ℤ pos amount
    → decide_payer b (noted month e now (add_balance amount c)) ≡ (p, none)
unfolding apply_monthly_reset
noted-recharged month e now amount b c p waits enough =
    elim (Bool-cases (same_month month c.monthly_reset_at now)) [
      | inl current ↦ rw current (decide_payer-recharged b _ amount p (rw current at waits) enough)
      | inr past ↦ rw past (decide_payer-recharged b _ amount p (rw past at waits) enough)
    ]

noted-keeps :
    (month : ℕ → ℕ) (e : Envelope) (now : ℕ) (c : Conversation)
    → ((noted month e now c).id ≡ c.id) × ((noted month e now c).etg_balance ≡ c.etg_balance)
unfolding apply_monthly_reset
noted-keeps month e now c = ground arith

-- A credit to a customer does not change the balance that gates the business's messages.
get_balance-conversations :
    (k : ℕ) (rows : List Conversation) (w : World)
    → (get_balance k (record w { db = record w.db { conversations = rows } })).0
      ≡ (get_balance k w).0
unfolding get_balance
get_balance-conversations k rows w = ground arith

module _ (services : Services) (e : Envelope) (bot : Bot) (b : Business) (now : ℕ) where
  -- What the pipeline has written when it decides who pays for a customer that it knows.
  abbrev reached : Conversation → World → World
  reached c w =
      let (_, read) = get_balance bot.business_id w in
      record read {
        db = record read.db {
          conversations =
              modify_first (is_conversation c.id) (apply_monthly_reset services.month now) (
                modify_first (is_conversation c.id)
                  (λ c. record c { detected_language = detect_language e.text })
                  read.db.conversations);
        };
      }

  reached-row :
      (c : Conversation) (w : World)
      → find_first (is_conversation c.id) w.db.conversations ≡ some c
      → find_first (is_conversation c.id) (reached c w).db.conversations
        ≡ some (noted services.month e now c)
  reached-row c w row =
      let spoken : Conversation = record c { detected_language = detect_language e.text } in
      let own : is_conversation c.id c ≡ true = (nat_eq_iff c.id c.id).1 refl in
      rw (get_balance-db bot.business_id w) (
        find_first-modify_first (is_conversation c.id) (apply_monthly_reset services.month now) _
          {x = spoken}
          (find_first-modify_first (is_conversation c.id) _ w.db.conversations {x = c} row own)
          ((nat_eq_iff _ c.id).1 (noted-keeps services.month e now c).0))

  -- Where the wallet lets a text of a known customer through, it comes to who pays.
  gate-eq_decided :
      (c : Conversation) (w : World)
      → (business_pays_cost b && leb_ℤ (get_balance bot.business_id w).0 (pos 0)) ≡ false
      → find_first (is_customer bot e) w.db.conversations ≡ some c
      → find_first (is_conversation c.id) w.db.conversations ≡ some c
      → e.is_voice ≡ false
      → asks_balance services e.text ≡ false
      → let c' = noted services.month e now c in
        let (payer, block) = decide_payer b c' in
        gate services e bot b now w ≡ decided services e bot b c' now payer block (reached c w)
  unfolding get_or_create_conversation
  gate-eq_decided c w funded known row typed other =
      let same = get_balance-db bot.business_id w in
      let known' : find_first (is_customer bot e) (get_balance bot.business_id w).1.db.conversations
          ≡ some c =
        rw same known in
      rw funded (rw known' (rw typed (rw other (rw (reached-row c w row) refl))))

  -- Where a text of a customer that the bot knows, with an id of its own, would wait for a recharge
  -- of the customer's balance at some time, and the wallet of the business does not hold it back, the
  -- text is not recorded. Once the owner of the business has credited the customer with at least what
  -- is missing of the price, and with at most 1,000,000, the credit succeeds with the balance that
  -- results, and the same text at that time goes on to the appointment and the answer, with the
  -- customer among those who pay, and with that balance.
  pub gate-credit_customer :
      (user_id amount : ℕ) (p : Payer) (w : World) {c : Conversation}
      → owns_business user_id b.id w.db ≡ true
      → find_first (is_customer_of b.id c.id) w.db.conversations ≡ some c
      → find_first (is_customer bot e) w.db.conversations ≡ some c
      → find_first (is_conversation c.id) w.db.conversations ≡ some c
      → 1 ≤ amount
      → amount ≤ 1000000
      → e.is_voice ≡ false
      → asks_balance services e.text ≡ false
      → (business_pays_cost b && leb_ℤ (get_balance bot.business_id w).0 (pos 0)) ≡ false
      → decide_payer b (noted services.month e now c) ≡ (p, some Block.recharge)
      → pos b.service_price ≤ℤ c.etg_balance +ℤ pos amount
      → let (result, w') = credit_customer b.id c.id user_id amount w in
        (user_pays p ≡ true)
        × ((gate services e bot b now w).1.db.messages ≡ w.db.messages)
        × (result ≡ ok (c.etg_balance +ℤ pos amount))
        × ((c' : Conversation) × (w'' : World) × (c'.etg_balance ≡ c.etg_balance +ℤ pos amount)
            × (find_first (is_conversation c.id) w''.db.conversations ≡ some c')
            × (gate services e bot b now w'
                ≡ unless (services.booking e bot c') (answer services e bot b c' p now) w''))
  unfolding credit_customer
  gate-credit_customer user_id amount p w {c} owned theirs known row low high typed other funded
        waits enough =
      let valid : (leb 1 amount && leb amount 1000000) ≡ true = ground arith in
      let richer : Conversation = add_balance amount c in
      let w' : World = record w {
        db = record w.db {
          conversations =
              modify_first (is_customer_of b.id c.id) (add_balance amount) w.db.conversations;
        };
      } in
      let own : is_conversation c.id c ≡ true = (nat_eq_iff c.id c.id).1 refl in
      let known' : find_first (is_customer bot e) w'.db.conversations ≡ some richer =
        find_first-modify_same (is_customer_of b.id c.id) (is_customer bot e) (add_balance amount)
          w.db.conversations {x = c} theirs known
          (find_first-holds (is_customer bot e) w.db.conversations known) in
      let row' : find_first (is_conversation c.id) w'.db.conversations ≡ some richer =
        find_first-modify_same (is_customer_of b.id c.id) (is_conversation c.id)
          (add_balance amount) w.db.conversations {x = c} theirs row own in
      let funded' : (business_pays_cost b && leb_ℤ (get_balance bot.business_id w').0 (pos 0))
          ≡ false =
        rw (get_balance-conversations bot.business_id w'.db.conversations w) funded in
      let passes = noted-recharged services.month e now amount b c p waits enough in
      (
        recharge-user_pays b (noted services.month e now c) p waits,
        ap (λ (r : Result Unit × World). r.1.db.messages)
              (gate-eq_decided c w funded known row typed other)
            ∙ rw waits (ap (λ (db : Db). db.messages) (get_balance-db bot.business_id w)),
        rw valid (rw owned (rw theirs refl)),
        (
          noted services.month e now richer,
          reached richer w',
          (noted-keeps services.month e now richer).1,
          reached-row richer w' row',
          rw valid (
              rw owned (
                rw theirs
                  (gate-eq_decided richer w' funded' known' row' typed other ∙ rw passes refl))),
        ),
      )
