-- ===== src/Metering/Charging.antt =====
-- `charge` of app/core/metering.py.
use Prim.Native.String.{◌++◌ as concat}
use ethiogram.Base.{
  ℕ, ◌+◌, ◌*◌, ◌/◌, max, String, ◌&&◌, Option, none, some, ◌∷◌, modify_first, nat_eq, if◌then◌else◌,
}
use ethiogram.Base.Int.{pos, ◌+ℤ◌, ◌-ℤ◌, max_zero}
use ethiogram.Models.{World, TokenWallet, Reference, uuid, EtgTransaction, UsageEvent, ModelTier}
use ethiogram.Metering.Balance.{owns_wallet, find_wallet, cache_balance}
use ethiogram.Metering.Pricing.{get_action_cost}

-- The arguments of `charge` behind the business.
pub record Usage : Type 0 where
  pub action_type : String
  pub model_tier : Option ModelTier
  pub input_tokens : ℕ
  pub output_tokens : ℕ
  pub bot_id : Option ℕ
  pub conversation_id : Option ℕ
  pub reference_id : Option Reference

-- `if input_tokens or output_tokens: max(0, ...)`
abbrev pub token_surcharge : Usage → ℕ
token_surcharge u =
    if nat_eq u.input_tokens 0 && nat_eq u.output_tokens 0
    then 0
    else max 0 (u.input_tokens / 1000 + u.output_tokens / 1000 * 2)

abbrev reference_of : Usage → Option Reference
reference_of u = elim u.reference_id [
  | some r ↦ some r
  | none ↦ elim u.conversation_id [ some c ↦ some (uuid c) | none ↦ none ]
]

abbrev pub debit : ℕ → TokenWallet → TokenWallet
debit etg wallet = record wallet {
  balance = max_zero (wallet.balance -ℤ pos etg);
  lifetime_spent = wallet.lifetime_spent +ℤ pos etg;
  current_month_spend = wallet.current_month_spend +ℤ pos etg;
}

abbrev usage_transaction : Usage → ℕ → TokenWallet → EtgTransaction
usage_transaction u etg wallet = record {
  wallet_id = wallet.id;
  amount = pos 0 -ℤ pos etg;
  balance_before = wallet.balance;
  balance_after = max_zero (wallet.balance -ℤ pos etg);
  transaction_type = "usage";
  description = concat u.action_type " charge";
  reference_type = some u.action_type;
  reference_id = reference_of u;
  admin_id = none;
}

abbrev usage_event : ℕ → Usage → ℕ → UsageEvent
usage_event business_id u etg = record {
  business_id = business_id;
  bot_id = u.bot_id;
  conversation_id = u.conversation_id;
  action_type = u.action_type;
  model_id = none;
  model_tier = u.model_tier;
  input_tokens = u.input_tokens;
  output_tokens = u.output_tokens;
  etg_charged = etg;
  payer = none;
}

-- The part of `charge` behind the query for the wallet.
abbrev pub charge_wallet : ℕ → Usage → ℕ → Option TokenWallet → World → ℕ × World
charge_wallet business_id u etg none w = (0, w)
charge_wallet business_id u etg (some wallet) w = (
  etg,
  cache_balance business_id (debit etg wallet).balance (record w {
    db = record w.db {
      wallets = modify_first (owns_wallet business_id) (debit etg) w.db.wallets;
      transactions = usage_transaction u etg wallet ∷ w.db.transactions;
      usage_events = usage_event business_id u etg ∷ w.db.usage_events;
    };
  }),
)

unfoldable pub charge : ℕ → Usage → World → ℕ × World
charge business_id u w =
    let (base_cost, w') = get_action_cost u.action_type w in
    charge_wallet business_id u (base_cost + token_surcharge u) (find_wallet business_id w'.db) w'
