-- ===== src/Booking.antt =====
-- Appointments: app/services/booking_service.py.
mod Slots
mod Persistence
unfoldable pub use Slots.*
unfoldable pub use Persistence.*
pub mod Hours
pub mod Overlap
pub mod Offers
