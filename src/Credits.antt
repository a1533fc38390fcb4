-- ===== src/Credits.antt =====
-- The credits that a wallet gets other than by a recharge of its owner: app/services/referral_service.py
-- and app/api/internal.py.
mod Referral
mod Internal
unfoldable pub use Referral.*
unfoldable pub use Internal.*
pub mod Pending
pub mod Bonus
pub mod Odaflux
