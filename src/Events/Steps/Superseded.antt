-- ===== src/Events/Steps/Superseded.antt =====
-- A worker whose claim another worker has taken over: packages/adapters/src/postgres/
-- telegram-event-processing-store.ts.
