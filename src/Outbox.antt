-- ===== src/Outbox.antt =====
-- The transactional outbox: the dispatcher of packages/domain/src/outbox/outbox-delivery.ts and its
-- PostgreSQL store, packages/adapters/src/postgres/outbox-store.ts.
pub mod Types
pub mod Rows
pub mod ClaimPending
pub mod Transitions
pub mod Checks
pub mod History
pub mod Dispatch
mod Tests
