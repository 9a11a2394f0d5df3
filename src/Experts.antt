-- ===== src/Experts.antt =====
-- The expert's side, packages/domain/src/experts: the application lifecycle, the availability
-- toggle, presence, and the predicate of who may be matched.
pub mod Status
pub mod Availability
pub mod Eligibility
pub mod Lifecycle
pub mod Photos
pub mod Signatures
mod Tests
