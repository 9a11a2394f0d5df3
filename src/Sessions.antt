-- ===== src/Sessions.antt =====
-- When a session may start, when it is over and how long it ran:
-- packages/domain/src/sessions/session-lifecycle.ts.
pub mod Lifecycle
pub mod Clock
mod Tests
