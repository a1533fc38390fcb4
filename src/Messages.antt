-- ===== src/Messages.antt =====
-- The message pipeline of app/api/webhooks.py, and what the owner and the admin set for it.
mod Cost
mod Policy
mod Meter
mod Status
mod Incoming
mod Record
mod Pipeline
unfoldable pub use Cost.*
unfoldable pub use Policy.*
unfoldable pub use Meter.*
unfoldable pub use Status.*
unfoldable pub use Incoming.*
unfoldable pub use Record.*
pub mod PriceText
pub mod Prices
pub mod Bills
pub mod Solvency
pub mod Keeps
pub mod Answers
pub mod Accounts
pub mod Once
pub mod Recovery
pub mod Recharged
unfoldable pub use Pipeline.*
