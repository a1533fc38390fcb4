-- ===== src/Models/Wallets.antt =====
-- The token economy's rows of app/db/models.py.
use ethiogram.Base.{ℕ, String, Bool, Option}
use ethiogram.Base.Int.{ℤ}
use ethiogram.Models.Enums.{
  BotStatus, EscrowStatus, AlertType, ModelTier, PaymentProvider, PaymentStatus,
}
use ethiogram.Base.Texts.{Text}

pub record TokenWallet : Type 0 where
  pub id : ℕ
  pub business_id : ℕ
  pub balance : ℤ
  pub escrow_balance : ℤ
  pub lifetime_recharged : ℤ
  pub lifetime_spent : ℤ
  pub auto_recharge_enabled : Bool
  pub auto_recharge_threshold : ℤ
  pub auto_recharge_amount : ℤ
  pub auto_recharge_provider : Option String
  pub current_month_spend : ℤ

-- The text that `str(...)` gives for an identifier, a text as it stands, or a text with a number behind
-- it.
pub data Reference : Type 0 where
  text : String → Reference
  uuid : ℕ → Reference
  numbered : String → ℕ → Reference

pub record EtgTransaction : Type 0 where
  pub wallet_id : ℕ
  pub amount : ℤ
  pub balance_before : ℤ
  pub balance_after : ℤ
  pub transaction_type : String
  pub description : String
  pub reference_type : Option String
  pub reference_id : Option Reference
  pub admin_id : Option ℕ

pub record UsagePricing : Type 0 where
  pub action_type : String
  pub etg_cost : ℕ
  pub is_active : Bool

pub record UsageEvent : Type 0 where
  pub business_id : ℕ
  pub bot_id : Option ℕ
  pub conversation_id : Option ℕ
  pub action_type : String
  pub model_id : Option String
  pub model_tier : Option ModelTier
  pub input_tokens : ℕ
  pub output_tokens : ℕ
  pub etg_charged : ℕ
  pub payer : Option String

pub record WalletAlert : Type 0 where
  pub wallet_id : ℕ
  pub alert_type : AlertType
  pub balance_at_alert : ℤ

pub record Bot : Type 0 where
  pub id : ℕ
  pub business_id : ℕ
  pub token_hash : String
  pub webhook_url : Option String
  pub webhook_secret : Option String
  pub status : BotStatus
  pub grace_period_started_at : Option ℕ
  pub suspended_at : Option ℕ
  pub suspension_reason : Option String
  pub total_messages_processed : ℕ
  pub total_etg_consumed : ℕ
  pub last_message_at : Option ℕ

pub record TokenEscrow : Type 0 where
  pub id : ℕ
  pub wallet_id : ℕ
  pub amount : ℕ
  pub release_at : ℕ
  pub status : EscrowStatus
  pub released_at : Option ℕ
  pub dispute_reason : Option String

-- A price is a float, numbered by `Floats.price` of `Billing`: the code copies it and compares it once.
pub record EtgPackage : Type 0 where
  pub id : ℕ
  pub etg_amount : ℕ
  pub bonus_etg : ℕ
  pub price_usd : ℕ
  pub price_etb : ℕ
  pub is_active : Bool

pub record RechargeOrder : Type 0 where
  pub id : ℕ
  pub business_id : ℕ
  pub etg_package_id : Option ℕ
  pub etg_amount : ℕ
  pub fiat_amount : ℕ
  pub fiat_currency : String
  pub payment_provider : PaymentProvider
  pub payment_reference : Option Text
  pub status : PaymentStatus
  pub completed_at : Option ℕ
  pub bonus_etg : ℕ
