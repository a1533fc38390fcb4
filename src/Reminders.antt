-- ===== src/Reminders.antt =====
-- The reminders' worker: workers/booking_reminders.py.
mod Scan
unfoldable pub use Scan.*
pub mod Repeat
