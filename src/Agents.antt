-- ===== src/Agents.antt =====
-- app/api/agents.py: the marketplace of agents. A business tries an agent for some days or unlocks it
-- for ETG that goes into escrow; either way it gets one deployed child agent.
mod Access
mod Child
mod Trial
mod Unlock
mod Manage
mod Review
pub mod Payment
pub mod Unrecorded
pub mod Once
unfoldable pub use Access.*
unfoldable pub use Child.*
unfoldable pub use Trial.*
unfoldable pub use Unlock.*
unfoldable pub use Manage.*
unfoldable pub use Review.*
