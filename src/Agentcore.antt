-- ===== src/Agentcore.antt =====
-- The session service (pkg/agentcore).
pub mod Collection
pub mod Store
pub mod Service
mod Tests
