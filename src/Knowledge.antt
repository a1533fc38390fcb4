-- ===== src/Knowledge.antt =====
-- Documents for retrieval: app/services/embedding_service.py and app/services/rag_service.py.
mod Chunks
mod Context
unfoldable pub use Chunks.*
unfoldable pub use Context.*
pub mod Coverage
pub mod Budget
