-- ===== src/Models/Market.antt =====
-- The marketplace's rows of app/db/models.py.
use ethiogram.Base.{ℕ, String, Bool, Option, List}
use ethiogram.Models.Enums.{AgentStatus, UserRole}
use ethiogram.Base.Texts.{Text}

-- A JSON object of settings. The code asks only whether it is empty.
abbrev pub Config : Type 0
Config = List (String × String)

pub record User : Type 0 where
  pub id : ℕ
  pub telegram_id : Option ℕ
  pub username : Option Text
  pub email : Option Text
  pub hashed_password : Option String
  pub role : UserRole
  pub is_active : Bool
  pub is_admin : Bool
  pub referral_code : Option Text
  pub referred_by_id : Option ℕ
  pub suspended_at : Option ℕ
  pub suspension_reason : Option String

pub record Business : Type 0 where
  pub id : ℕ
  pub owner_id : ℕ
  pub is_suspended : Bool
  pub suspended_reason : Option String
  pub billing_policy : String
  pub per_user_monthly_limit : Option ℕ
  pub per_user_limit_action : String
  pub service_price : ℕ
  pub business_markup : ℕ
  pub deleted_at : Option ℕ

pub record CreatorProfile : Type 0 where
  pub id : ℕ
  pub user_id : ℕ
  pub is_trusted : Bool
  pub total_revenue_etg : ℕ
  pub total_unlocks : ℕ

-- `average_rating` is the mean as (sum of the ratings, their number), before it becomes a float.
pub record Agent : Type 0 where
  pub id : ℕ
  pub creator_id : ℕ
  pub name : String
  pub price_etg : ℕ
  pub status : AgentStatus
  pub total_unlocks : ℕ
  pub average_rating : Option (ℕ × ℕ)
  pub review_count : ℕ
  pub rejection_reason : Option String
  pub reviewed_by_id : Option ℕ
  pub reviewed_at : Option ℕ

-- `child_secrets` is the encrypted text.
pub record ChildAgent : Type 0 where
  pub id : ℕ
  pub agent_id : ℕ
  pub business_id : ℕ
  pub display_name : Option String
  pub child_data : Config
  pub child_secrets : Option String
  pub is_active : Bool
  pub assigned_to_bot_id : Option ℕ

pub record AgentTrial : Type 0 where
  pub id : ℕ
  pub agent_id : ℕ
  pub business_id : ℕ
  pub child_agent_id : Option ℕ
  pub expires_at : ℕ
  pub is_converted : Bool
  pub converted_at : Option ℕ
  pub warning_sent_at : Option ℕ
  pub critical_sent_at : Option ℕ
  pub expired_notified_at : Option ℕ

pub record AgentUnlock : Type 0 where
  pub id : ℕ
  pub agent_id : ℕ
  pub business_id : ℕ
  pub child_agent_id : Option ℕ
  pub etg_paid : ℕ
  pub escrow_id : Option ℕ
  pub is_refunded : Bool

pub record AgentReview : Type 0 where
  pub id : ℕ
  pub agent_id : ℕ
  pub business_id : ℕ
  pub unlock_id : ℕ
  pub rating : ℕ
  pub is_visible : Bool
