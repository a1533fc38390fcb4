-- ===== src/ModelRouter.antt =====
-- app/services/model_router.py: which model answers a request, and what is tried when it fails.
mod Keys
mod Chain
pub mod Availability
pub mod Failover
unfoldable pub use Keys.*
unfoldable pub use Chain.*
