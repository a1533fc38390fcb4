-- ===== src/Escrow.antt =====
-- workers/escrow_release.py: the release of matured escrows, with the 70/30 split.
mod Share
mod Release
pub mod Outcome
pub mod Conservation
pub mod Backing
unfoldable pub use Share.*
unfoldable pub use Release.*
