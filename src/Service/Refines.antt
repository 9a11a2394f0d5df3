-- ===== src/Service/Refines.antt =====
-- Every method of matching-service.ts refines the table of support-requests/transitions.ts: it changes
-- the requests by legal moves alone.
pub mod Responses
pub mod Dispatch
pub mod Pool
pub mod Admin
pub mod Checkout
pub mod Calls
