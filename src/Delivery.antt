-- ===== src/Delivery.antt =====
-- Delivery of Telegram replies: packages/domain/src/channel/deliver-telegram-reply.ts and
-- recover-telegram-delivery.ts, over the stores of packages/adapters/src/postgres/
-- telegram-delivery-store.ts and telegram-delivery-recovery-store.ts.
pub mod Types
pub mod Rows
pub mod Store
pub mod Reply
pub mod RecoveryStore
pub mod Recovery
pub mod System
pub mod Checks
pub mod BotApi
mod Tests
