-- ===== src/Messages/Policy.antt =====
-- Who pays for a message in app/api/webhooks.py, and the owner's settings of it in app/api/businesses.py.
use ethiogram.Base.{
  ℕ, String, Bool, true, false, not, ◌&&◌, ◌||◌, Option, none, some, modify_first, find_first,
  nat_eq, leb, ◌==◌, eq_string, if◌then◌else◌,
}
use ethiogram.Base.Int.{ℤ, pos, leb_ℤ, ◌+ℤ◌}
use ethiogram.Models.{Business, Conversation, Error}
use ethiogram.Request.{Action, pure, gets, or_raise, raise_if, modify_db, ◌>>=◌, ◌>>◌}
use ethiogram.Agents.{owns_business}

-- "business", "user", "both"
pub data Payer : Type 0 where
  business user both : Payer

-- "recharge", "limit"
pub data Block : Type 0 where
  recharge limit : Block

-- `payer in ("business", "both")`
abbrev pub business_pays : Payer → Bool
business_pays Payer.user = false
business_pays _ = true

-- `payer in ("user", "both")`
abbrev pub user_pays : Payer → Bool
user_pays Payer.business = false
user_pays _ = true

abbrev pub payer_text : Payer → String
payer_text Payer.business = "business"
payer_text Payer.user = "user"
payer_text Payer.both = "both"

-- `month` gives the year and the month of an instant, as one number.
abbrev pub same_month : (ℕ → ℕ) → Option ℕ → ℕ → Bool
same_month month none now = false
same_month month (some r) now = nat_eq (month r) (month now)

unfoldable pub apply_monthly_reset : (ℕ → ℕ) → ℕ → Conversation → Conversation
apply_monthly_reset month now c =
    if same_month month c.monthly_reset_at now
    then c
    else record c { monthly_etg_used = 0; monthly_reset_at = some now }

-- `(payer, None) if bal >= price else (payer, "recharge")`
abbrev pub if_covered : Payer → Business → Conversation → Payer × Option Block
if_covered payer b c =
    (payer, if leb_ℤ (pos b.service_price) c.etg_balance then none else some Block.recharge)

-- `limit is not None and used >= limit`
abbrev pub over_limit : Option ℕ → ℕ → Bool
over_limit none used = false
over_limit (some cap_value) used = leb cap_value used

unfoldable pub decide_payer : Business → Conversation → Payer × Option Block
decide_payer b c =
    if b.billing_policy == "user_pays"
    then if_covered Payer.user b c
    else if b.billing_policy == "both"
    then if_covered Payer.both b c
    else if not (over_limit b.per_user_monthly_limit c.monthly_etg_used)
    then (Payer.business, none)
    else if b.per_user_limit_action == "user_pays"
    then if_covered Payer.user b c
    else (Payer.business, some Block.limit)

-- `BillingUpdate`. A field that is not set is none; the limit may be set to null.
pub record BillingUpdate : Type 0 where
  pub billing_policy : Option String
  pub per_user_monthly_limit : Option (Option ℕ)
  pub per_user_limit_action : Option String
  pub service_price : Option ℕ
  pub business_markup : Option ℕ

abbrev pub is_policy : String → Bool
is_policy s = s == "business_pays" || s == "user_pays" || s == "both"

abbrev pub is_limit_action : String → Bool
is_limit_action s = s == "block" || s == "user_pays"

abbrev fits : (String → Bool) → Option String → Bool
fits p none = true
fits p (some s) = p s

abbrev or_old {ℓ} : {A : Type ℓ} → Option A → A → A
or_old none old = old
or_old (some v) old = v

abbrev pub set_billing : BillingUpdate → Business → Business
set_billing u b = record b {
  billing_policy = or_old u.billing_policy b.billing_policy;
  per_user_monthly_limit = or_old u.per_user_monthly_limit b.per_user_monthly_limit;
  per_user_limit_action = or_old u.per_user_limit_action b.per_user_limit_action;
  service_price = or_old u.service_price b.service_price;
  business_markup = or_old u.business_markup b.business_markup;
}

-- `_get_owned_business`: not suspended and not deleted, and the user's own.
abbrev pub get_owned_business : ℕ → ℕ → Action Unit
get_owned_business business_id user_id = do
  owned ← gets (λ w. owns_business user_id business_id w.db)
  raise_if (not owned) (Error.not_found "Business")

-- The validators refuse a request before the handler runs. Numbers are natural here.
unfoldable pub update_billing : ℕ → ℕ → BillingUpdate → Action Unit
update_billing business_id user_id u = do
  raise_if (not (fits is_policy u.billing_policy && fits is_limit_action u.per_user_limit_action))
      (Error.validation_error "billing")
  get_owned_business business_id user_id
  modify_db (λ db. record db {
    businesses = modify_first (λ b. nat_eq b.id business_id) (set_billing u) db.businesses;
  })

abbrev pub is_conversation : ℕ → Conversation → Bool
is_conversation id c = nat_eq c.id id

abbrev pub add_balance : ℕ → Conversation → Conversation
add_balance amount c = record c { etg_balance = c.etg_balance +ℤ pos amount }

abbrev pub is_customer_of : ℕ → ℕ → Conversation → Bool
is_customer_of business_id id c = is_conversation id c && nat_eq c.business_id business_id

-- `CreditRequest` takes an amount from 1 to 1,000,000.
unfoldable pub credit_customer : ℕ → ℕ → ℕ → ℕ → Action ℤ
credit_customer business_id conversation_id user_id amount = do
  raise_if (not (leb 1 amount && leb amount 1000000)) (Error.validation_error "amount")
  get_owned_business business_id user_id
  found ← gets (λ w. find_first (is_customer_of business_id conversation_id) w.db.conversations)
  conv ← or_raise found (Error.not_found "Conversation")
  modify_db (λ db. record db {
    conversations =
        modify_first (is_customer_of business_id conversation_id) (add_balance amount)
          db.conversations;
  })
  pure (add_balance amount conv).etg_balance
