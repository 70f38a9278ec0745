-- ===== src/Authz.antt =====
-- internal/authz.
pub mod Permissions
pub mod PermSet
pub mod Roles
pub mod Tokens
pub mod Promotions
pub mod ReadOnly
pub mod Resolver
pub mod TokenResolver
pub mod Cache
pub mod Inheritance
pub mod Tables
mod Tests
