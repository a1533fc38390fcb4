-- ===== src/Admin.antt =====
-- The staff of the platform: app/api/admin.py and app/api/admin_panel.py.
mod Audit
mod Bots
mod Users
mod Market
unfoldable pub use Audit.*
unfoldable pub use Bots.*
unfoldable pub use Users.*
unfoldable pub use Market.*
pub mod Lockout
pub mod Silence
pub mod Rights
