-- ===== src/Events.antt =====
-- Processing of a Telegram event that a Queue delivers: packages/domain/src/channel/
-- process-telegram-event.ts and packages/adapters/src/postgres/telegram-event-processing-store.ts.
-- Accept is its acceptance: accept-telegram-event.ts and telegram-ingress-store.ts.
pub mod Types
pub mod Process
pub mod Stored
pub mod Rows
pub mod Windows
pub mod Store
pub mod Checks
pub mod Calls
pub mod Steps
pub mod Postgres
pub mod Accept
mod Tests
mod StoreTests
