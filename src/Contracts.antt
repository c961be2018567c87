-- ===== src/Contracts.antt =====
-- slimx_agent/contracts.py: the closed vocabularies that every part of the agent shares.
pub mod Vocabulary
pub mod Events
pub use Vocabulary.*
pub use Events.*
