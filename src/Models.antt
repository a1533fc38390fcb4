-- ===== src/Models.antt =====
-- The rows of app/db/models.py, less the columns that no modelled code reads or writes
-- (display texts, timestamps of creation, relationships). A UUID is a number, since identifiers
-- are only compared; a `datetime` is the number of microseconds since a fixed instant.
mod Enums
mod Wallets
mod Market
mod Scheduling
mod Accounts
mod Conversations
mod Database
mod Errors
mod Configuration
pub use Enums.*
pub use Wallets.*
pub use Market.*
pub use Scheduling.*
pub use Accounts.*
pub use Conversations.*
pub use Database.*
pub use Errors.*
pub use Configuration.*
