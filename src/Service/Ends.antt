-- ===== src/Service/Ends.antt =====
-- Every method of matching-service.ts, called in a valid world, ends in a valid world.
pub mod Responses
pub mod Dispatch
pub mod Pool
pub mod Admin
pub mod Checkout
pub mod Calls
