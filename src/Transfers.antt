-- ===== src/Transfers.antt =====
-- The transfer of a business to another user: app/api/transfers.py.
mod Recipient
mod Handlers
unfoldable pub use Recipient.*
unfoldable pub use Handlers.*
pub mod Pending
pub mod Consent
