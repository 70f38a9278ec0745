-- ===== src/Skills.antt =====
-- internal/skills.
pub mod Tables
pub mod Lifecycle
mod Tests
