-- ===== src/NetworkOps.antt =====
-- src/network-ops: the five handlers of network settings, which share one structure.
pub mod Kind
pub mod Store
pub mod Rules
pub mod Deletion
pub mod Documents
pub mod Entries
pub mod Identifiers
pub mod Keeping
pub mod Requests
pub mod Handlers
