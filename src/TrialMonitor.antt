-- ===== src/TrialMonitor.antt =====
-- The trials' worker: workers/trial_monitor.py.
mod Stages
unfoldable pub use Stages.*
pub mod Expiry
