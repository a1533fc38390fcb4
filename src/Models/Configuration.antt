-- ===== src/Models/Configuration.antt =====
-- The settings of app/core/config.py that the modelled code reads, with their defaults. A deployment
-- may set each by the environment, so the code's functions take the record.
use ethiogram.Base.{ℕ, String, Option, none, List, []}

pub record Settings : Type 0 where
  pub default_model_id : String
  pub fallback_model_id : String
  pub emergency_model_id : String
  pub amharic_primary_model_id : String
  pub amharic_secondary_model_id : String
  pub etg_referral_bonus : ℕ
  pub etg_new_user_bonus : ℕ
  pub max_child_agents_per_bot : ℕ
  pub trial_duration_days : ℕ
  pub escrow_release_days : ℕ
  pub chapa_webhook_secret : Option String
  pub chapa_internal_key : String
  pub jwt_access_token_expire_minutes : ℕ
  pub jwt_refresh_token_expire_days : ℕ
  pub admin_telegram_ids : List ℕ
  pub admin_secret_value : Option String

abbrev pub default_settings : Settings
default_settings = record {
  default_model_id = "gemini-2.0-flash-001";
  fallback_model_id = "gpt-4o-mini";
  emergency_model_id = "llama-3.1-8b-instruct";
  amharic_primary_model_id = "google/gemini-2.5-flash";
  amharic_secondary_model_id = "google/gemini-2.5-pro";
  etg_referral_bonus = 200;
  etg_new_user_bonus = 100;
  max_child_agents_per_bot = 10;
  trial_duration_days = 15;
  escrow_release_days = 7;
  chapa_webhook_secret = none;
  chapa_internal_key = "";
  jwt_access_token_expire_minutes = 60;
  jwt_refresh_token_expire_days = 30;
  admin_telegram_ids = [];
  admin_secret_value = none;
}
