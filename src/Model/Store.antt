-- ===== src/Model/Store.antt =====
-- packages/adapters/src/postgres/model-operation-store.ts.
--
-- The calendar is a parameter: `Moment` holds the database's time in milliseconds, its date, the
-- month that a budget is for, and the worker's clock. Versions, prompts and token counts, which the
-- store only copies, are left out.
pub mod Rows
pub mod Budgets
pub mod Prepare
pub mod Claim
pub mod Complete
