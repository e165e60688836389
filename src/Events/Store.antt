-- ===== src/Events/Store.antt =====
-- packages/adapters/src/postgres/telegram-event-processing-store.ts.
--
-- `clock` is the worker's Clock.currentTimeMillis, `now` the database's CURRENT_TIMESTAMP, both in
-- milliseconds and not assumed to agree.
pub mod Claim
pub mod Complete
pub mod Limit
