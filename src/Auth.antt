-- ===== src/Auth.antt =====
-- Accounts: app/core/security.py, app/api/auth.py and app/api/deps.py.
mod Tokens
mod Guards
mod Login
unfoldable pub use Tokens.*
unfoldable pub use Guards.*
unfoldable pub use Login.*
pub mod Registration
pub mod Rotation
