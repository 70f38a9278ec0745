-- ===== src/Principals.antt =====
-- internal/principals.
pub mod Membership
pub mod Ancestry
mod Tests
