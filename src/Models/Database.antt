-- ===== src/Models/Database.antt =====
-- The tables of the database that the modelled code touches, and the Redis keys of the metering.
use ethiogram.Base.{ℕ, String, List, [], Dict}
use ethiogram.Base.Int.{ℤ}
use ethiogram.Models.Enums.{AlertType}
use ethiogram.Models.Wallets.{
  TokenWallet, EtgTransaction, UsagePricing, UsageEvent, WalletAlert, Bot, TokenEscrow, EtgPackage,
  RechargeOrder,
}
use ethiogram.Models.Market.{
  User, Business, CreatorProfile, Agent, ChildAgent, AgentTrial, AgentUnlock, AgentReview,
}
use ethiogram.Models.Scheduling.{Booking, BusinessTransfer}
use ethiogram.Models.Accounts.{UserSession, AdminAuditLog}
use ethiogram.Models.Conversations.{Conversation, ChatMessage, AiModel}
use ethiogram.Base.Texts.{Text}

-- `next_id` supplies the primary keys (`uuid4`), which are taken to be new.
pub record Db : Type 0 where
  pub next_id : ℕ
  pub users : List User
  pub businesses : List Business
  pub bots : List Bot
  pub wallets : List TokenWallet
  pub transactions : List EtgTransaction
  pub pricing : List UsagePricing
  pub usage_events : List UsageEvent
  pub alerts : List WalletAlert
  pub packages : List EtgPackage
  pub orders : List RechargeOrder
  pub escrows : List TokenEscrow
  pub creators : List CreatorProfile
  pub agents : List Agent
  pub child_agents : List ChildAgent
  pub trials : List AgentTrial
  pub unlocks : List AgentUnlock
  pub reviews : List AgentReview
  pub bookings : List Booking
  pub transfers : List BusinessTransfer
  pub conversations : List Conversation
  pub messages : List ChatMessage
  pub ai_models : List AiModel
  pub sessions : List UserSession
  pub audit_log : List AdminAuditLog

-- wallet:balance:<business>, pricing:<action>, wallet:alert_sent:<business>, modelprice:<model>,
-- tg:update:<bot>:<update>, ref:pending:<telegram id>, sfgen:rl:<business>
pub record Redis : Type 0 where
  pub balances : Dict ℕ ℤ
  pub prices : Dict String ℕ
  pub alert_sent : Dict ℕ AlertType
  pub model_prices : Dict String Text
  pub updates : List (ℕ × ℕ)
  pub referrals : Dict Text Text
  pub generations : Dict ℕ ℕ

pub record World : Type 0 where
  pub db : Db
  pub redis : Redis

abbrev pub empty_db : Db
empty_db = record {
  next_id = 1000;
  users = [];
  businesses = [];
  bots = [];
  wallets = [];
  transactions = [];
  pricing = [];
  usage_events = [];
  alerts = [];
  packages = [];
  orders = [];
  escrows = [];
  creators = [];
  agents = [];
  child_agents = [];
  trials = [];
  unlocks = [];
  reviews = [];
  bookings = [];
  transfers = [];
  conversations = [];
  messages = [];
  ai_models = [];
  sessions = [];
  audit_log = [];
}

abbrev pub empty_redis : Redis
empty_redis = record {
  balances = [];
  prices = [];
  alert_sent = [];
  model_prices = [];
  updates = [];
  referrals = [];
  generations = [];
}
