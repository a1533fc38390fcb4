-- ===== src/Bots.antt =====
-- The life of a bot: app/api/bots.py and app/services/bot_onboarding.py.
mod Owned
mod Onboarding
unfoldable pub use Owned.*
unfoldable pub use Onboarding.*
pub mod Control
pub mod Welcome
