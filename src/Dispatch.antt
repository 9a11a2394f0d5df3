-- ===== src/Dispatch.antt =====
-- The attempts of a request at its experts and the operations that move them: the store of
-- packages/domain/src/matching/in-memory-matching-world.ts, which states the rules that the database
-- enforces.
pub mod Attempts
pub mod Store
pub mod Pool
pub mod Counting
pub mod Offers
pub mod Confirmations
pub mod Quiet
pub mod Steps
mod Tests
