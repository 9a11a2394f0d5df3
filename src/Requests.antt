-- ===== src/Requests.antt =====
-- The support-request state machine, packages/domain/src/support-requests/state-machine.ts: its
-- table of rules, the questions that the services ask of it, and the histories that it allows.
pub mod Machine
pub mod Lookup
pub mod Terminal
pub mod History
mod Tests
