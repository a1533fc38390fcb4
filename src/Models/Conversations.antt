-- ===== src/Models/Conversations.antt =====
-- The rows of conversations, of their messages and of the catalogue of models in app/db/models.py.
use ethiogram.Base.{ℕ, String, Bool, Option}
use ethiogram.Base.Int.{ℤ}
use ethiogram.Base.Texts.{Text}
use ethiogram.Models.Enums.{MessageRole}

pub record Conversation : Type 0 where
  pub id : ℕ
  pub business_id : ℕ
  pub bot_id : ℕ
  pub customer_platform_id : Text
  pub detected_language : String
  pub last_message_at : Option ℕ
  pub total_messages : ℕ
  pub total_etg_spent : ℕ
  pub etg_balance : ℤ
  pub monthly_etg_used : ℕ
  pub monthly_reset_at : Option ℕ

pub record ChatMessage : Type 0 where
  pub conversation_id : ℕ
  pub role : MessageRole
  pub content : Text
  pub model_used : Option String
  pub input_tokens : ℕ
  pub output_tokens : ℕ

pub record AiModel : Type 0 where
  pub model_id : String
  pub etg_cost_per_1k_input : ℕ
  pub etg_cost_per_1k_output : ℕ
  pub is_enabled : Bool
