-- ===== src/Models/Enums.antt =====
-- The enumerations of app/db/models.py, with `==` against the members that the code compares with.
use ethiogram.Base.{Bool, true, false}

pub data UserRole : Type 0 where
  owner creator admin support : UserRole

pub data MessageRole : Type 0 where
  user assistant system : MessageRole

pub data BotStatus : Type 0 where
  active paused grace disconnected suspended : BotStatus

pub data AgentStatus : Type 0 where
  draft pending_review live suspended rejected : AgentStatus

pub data EscrowStatus : Type 0 where
  holding released disputed refunded : EscrowStatus

pub data PaymentStatus : Type 0 where
  pending completed failed refunded : PaymentStatus

pub data AlertType : Type 0 where
  low critical zero paused : AlertType

pub data ModelTier : Type 0 where
  standard premium economy : ModelTier

pub data PaymentProvider : Type 0 where
  chapa stripe paypal crypto lemonsqueezy telebirr : PaymentProvider

abbrev pub is_active : BotStatus → Bool
is_active BotStatus.active = true
is_active _ = false

abbrev pub is_paused : BotStatus → Bool
is_paused BotStatus.paused = true
is_paused _ = false

abbrev pub is_suspended : BotStatus → Bool
is_suspended BotStatus.suspended = true
is_suspended _ = false

abbrev pub is_staff_role : UserRole → Bool
is_staff_role UserRole.admin = true
is_staff_role UserRole.support = true
is_staff_role _ = false

abbrev pub is_admin_role : UserRole → Bool
is_admin_role UserRole.admin = true
is_admin_role _ = false

abbrev pub is_grace : BotStatus → Bool
is_grace BotStatus.grace = true
is_grace _ = false

abbrev pub is_live : AgentStatus → Bool
is_live AgentStatus.live = true
is_live _ = false

abbrev pub is_holding : EscrowStatus → Bool
is_holding EscrowStatus.holding = true
is_holding _ = false

abbrev pub is_pending : PaymentStatus → Bool
is_pending PaymentStatus.pending = true
is_pending _ = false

abbrev pub is_chapa : PaymentProvider → Bool
is_chapa PaymentProvider.chapa = true
is_chapa _ = false

-- `provider in (PaymentProvider.chapa, PaymentProvider.telebirr)`
abbrev pub pays_birr : PaymentProvider → Bool
pays_birr PaymentProvider.chapa = true
pays_birr PaymentProvider.telebirr = true
pays_birr _ = false
