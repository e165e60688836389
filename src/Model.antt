-- ===== src/Model.antt =====
-- Paid model operations: packages/domain/src/model/model-gateway.ts and model-operation.ts, and
-- packages/adapters/src/postgres/model-operation-store.ts.
pub mod Types
pub mod Gateway
pub mod Registry
pub mod Prepare
pub mod Operation
pub mod Store
pub mod Checks
pub mod Steps
mod Tests
mod StoreTests
