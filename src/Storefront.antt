-- ===== src/Storefront.antt =====
-- The generation of a storefront by a language model in app/api/businesses.py.
mod Generation
unfoldable pub use Generation.*
pub mod Limits
pub mod Unmetered
