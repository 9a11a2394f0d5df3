-- ===== src/Service.antt =====
-- The matching service, packages/domain/src/matching/matching-service.ts and interest-dispatch.ts:
-- what happens to a request between its submission and an expert's commitment.
pub mod World
pub mod Monad
pub mod Requests
pub mod Runs
pub mod Setup
pub mod Dispatch
pub mod Responses
pub mod Interest
pub mod Confirmation
pub mod Admin
pub mod Follows
pub mod Moving
pub mod Safe
pub mod Refines
pub mod Calls
pub mod Below
pub mod Valid
pub mod Fresh
pub mod Offering
pub mod Ends
pub mod Shortlisted
pub mod Fallback
pub mod Inversion
pub mod Deadlines
pub mod Acceptance
mod Tests
