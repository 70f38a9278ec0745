-- ===== src/Knowledge.antt =====
-- internal/knowledge.
pub mod Tables
pub mod Lifecycle
pub mod Promote
pub mod Summarize
mod Tests
