-- ===== src/Models/Scheduling.antt =====
-- The rows of appointments and of ownership transfers of app/db/models.py. Their status is a text.
use ethiogram.Base.{ℕ, String, Option}
use ethiogram.Base.Texts.{Text}

pub record Booking : Type 0 where
  pub id : ℕ
  pub business_id : ℕ
  pub conversation_id : Option ℕ
  pub customer_platform_id : String
  pub customer_name : Option String
  pub customer_phone : Option String
  pub service_name : Option String
  pub starts_at : ℕ
  pub ends_at : ℕ
  pub status : String
  pub price : Option String
  pub notes : Option String
  pub source : String
  pub calendar_event_id : Option String
  pub reminder_24h_sent_at : Option ℕ
  pub reminder_1h_sent_at : Option ℕ

pub record BusinessTransfer : Type 0 where
  pub id : ℕ
  pub business_id : ℕ
  pub from_user_id : ℕ
  pub to_kind : String
  pub to_value : Text
  pub to_user_id : Option ℕ
  pub status : String
  pub expires_at : ℕ
  pub resolved_at : Option ℕ
  pub resolved_by_id : Option ℕ
