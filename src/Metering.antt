-- ===== src/Metering.antt =====
-- app/core/metering.py: the ETG token metering service. Each method takes the world and returns its
-- result with the new world. A key's time to live is not modelled by a clock: in Metering/Cache a
-- key may expire between any two calls.
mod Balance
mod Pricing
mod Charging
mod Crediting
mod Alerts
pub mod Cache
pub mod Ledger
pub mod Totals
pub mod Spending
pub mod Escalation
pub mod Grace
unfoldable pub use Balance.*
unfoldable pub use Pricing.*
unfoldable pub use Charging.*
unfoldable pub use Crediting.*
unfoldable pub use Alerts.*
