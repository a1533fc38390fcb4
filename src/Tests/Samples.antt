-- ===== src/Tests/Samples.antt =====
-- A small market: a buyer with a business and a wallet, a creator with an agent and a wallet.
use ethiogram.Base.{ℕ, String, true, false, none, some, [], ◌∷◌}
use ethiogram.Base.Int.{pos}
use ethiogram.Models.{
  User, Business, TokenWallet, Agent, AgentStatus, CreatorProfile, Db, empty_db, World, empty_redis,
  Config, Bot, BotStatus, UserRole,
}
use ethiogram.Agents.{DeployRequest}

abbrev pub buyer : User
buyer = record {
  id = 1;
  telegram_id = some 77;
  username = some (97 ∷ 98 ∷ []);
  email = none;
  hashed_password = none;
  role = UserRole.owner;
  is_active = true;
  is_admin = false;
  referral_code = none;
  referred_by_id = none;
  suspended_at = none;
  suspension_reason = none;
}

abbrev pub creator : User
creator = record buyer { id = 2; telegram_id = none; username = some (99 ∷ []) }

abbrev pub shop : Business
shop = record {
  id = 10;
  owner_id = 1;
  is_suspended = false;
  suspended_reason = none;
  billing_policy = "business_pays";
  per_user_monthly_limit = none;
  per_user_limit_action = "block";
  service_price = 0;
  business_markup = 0;
  deleted_at = none;
}

abbrev pub studio : Business
studio = record shop { id = 20; owner_id = 2 }

abbrev pub wallet_of : ℕ → ℕ → ℕ → TokenWallet
wallet_of id business_id balance = record {
  id = id;
  business_id = business_id;
  balance = pos balance;
  escrow_balance = pos 0;
  lifetime_recharged = pos balance;
  lifetime_spent = pos 0;
  auto_recharge_enabled = false;
  auto_recharge_threshold = pos 500;
  auto_recharge_amount = pos 5000;
  auto_recharge_provider = none;
  current_month_spend = pos 0;
}

abbrev pub shop_wallet : TokenWallet
shop_wallet = wallet_of 11 10 1000

abbrev pub profile : CreatorProfile
profile = record {
  id = 3;
  user_id = 2;
  is_trusted = true;
  total_revenue_etg = 0;
  total_unlocks = 0;
}

abbrev pub concierge : Agent
concierge = record {
  id = 5;
  creator_id = 3;
  name = "Concierge";
  price_etg = 700;
  status = AgentStatus.live;
  total_unlocks = 0;
  average_rating = none;
  review_count = 0;
  rejection_reason = none;
  reviewed_by_id = none;
  reviewed_at = none;
}

abbrev pub shop_bot : Bot
shop_bot = record {
  id = 6;
  business_id = 10;
  token_hash = "hash";
  webhook_url = none;
  webhook_secret = none;
  status = BotStatus.active;
  grace_period_started_at = none;
  suspended_at = none;
  suspension_reason = none;
  total_messages_processed = 0;
  total_etg_consumed = 0;
  last_message_at = none;
}

abbrev pub market_db : Db
market_db = record empty_db {
  users = buyer ∷ creator ∷ [];
  businesses = shop ∷ studio ∷ [];
  bots = shop_bot ∷ [];
  wallets = shop_wallet ∷ wallet_of 21 20 50 ∷ [];
  creators = profile ∷ [];
  agents = concierge ∷ [];
}

abbrev pub market : World
market = record { db = market_db; redis = empty_redis }

-- A cipher for tests.
abbrev pub plain : Config → String
plain c = "secret"

abbrev pub deploy : DeployRequest
deploy = record { business_id = 10; child_data = none; child_secrets = none }
