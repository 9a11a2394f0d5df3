-- ===== src/Authorization.antt =====
-- Who may do what, packages/domain/src/authorization.
pub mod Policy
pub mod Permissions
mod Tests
