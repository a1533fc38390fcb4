-- ===== src/Billing.antt =====
-- Recharges and their payments: app/api/billing.py.
mod Recharge
mod Webhook
unfoldable pub use Recharge.*
unfoldable pub use Webhook.*
pub mod Confirmation
pub mod Purchase
pub mod Settings
