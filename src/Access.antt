-- ===== src/Access.antt =====
-- src/biz/casbin: access control by policies of a subject, an object and a role or access level.
pub mod Casbin
pub mod Action
pub mod Request
pub mod Groups
pub mod Enforcer
pub mod Control
pub mod Cache
