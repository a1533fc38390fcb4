-- ===== src/Utils.antt =====
-- app/utils: phone numbers.
mod Phone
unfoldable pub use Phone.*
pub mod Normal
