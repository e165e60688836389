-- ===== src/Events/Calls.antt =====
-- Sequences of calls of the store, by any workers in any order: packages/adapters/src/postgres/
-- telegram-event-processing-store.ts. Each call is a transaction, and its answer goes to its worker.
use xpens_go.Prelude.{List, [], ℕ, ◌∷◌}
use xpens_go.Events.Rows.{EventTables}
use xpens_go.Events.Store.Claim.{ProcessingPolicy, claim}
use xpens_go.Events.Store.Complete.{DrawnIds, complete, release}
use xpens_go.Events.Store.Limit.{enforce_user_limit}
use xpens_go.Events.Types.{EventCompletion, InboundEventId, ProcessingClaimId}
use xpens_go.Outbox.Types.{CorrelationId, OutboxMessageId}

pub data StoreCall : Type 0 where
  -- The drawn claim, the worker's clock, the database's time, the policy, the job.
  claims : ProcessingClaimId → ℕ → ℕ → ProcessingPolicy → OutboxMessageId → StoreCall
  completes :
      ℕ
      → DrawnIds
      → CorrelationId
      → ProcessingClaimId
      → InboundEventId
      → EventCompletion
      → StoreCall
  limits : ℕ → ℕ → ProcessingClaimId → InboundEventId → (user : ℕ) → StoreCall
  releases : ProcessingClaimId → InboundEventId → StoreCall

unfoldable pub call : StoreCall → EventTables → EventTables
call (claims drawn clock now policy outbox) t = (claim drawn clock now policy outbox t).1
call (completes now ids correlation held k completion) t =
    (complete now ids correlation held k completion t).1
call (limits now maximum held k user) t = (enforce_user_limit now maximum held k user t).1
call (releases held k) t = (release held k t).1

unfoldable pub run_calls : List StoreCall → EventTables → EventTables
run_calls [] t = t
run_calls (c ∷ cs) t = run_calls cs (call c t)
