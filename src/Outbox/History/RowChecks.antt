-- ===== src/Outbox/History/RowChecks.antt =====
-- The statements of packages/adapters/src/postgres/outbox-store.ts keep the CHECK constraints of
-- each row.
use xpens_go.Prelude.{
  All, All-map, All-zip, Bool, Bool-cases, List, arith, contains, if◌then◌else◌, inl, inr, map,
  some, true, ℕ, ◌≡◌,
}
use xpens_go.Outbox.Checks.{MeetsChecks}
use xpens_go.Outbox.ClaimPending.{
  acknowledge, candidates, exhaust, is_eligible, lease, lease_if, reopen_stalled, settle,
}
use xpens_go.Outbox.ClaimPending.Candidates.{candidate-is_eligible}
use xpens_go.Outbox.Rows.{OutboxMessage, OutboxMessageReceipt, message_id}
use xpens_go.Outbox.Transitions.{
  is_recoverable, owns_claim, set_failure, set_published, set_recovered,
}
use xpens_go.Outbox.Types.{
  ClaimPendingOutboxInput, OutboxClaimId, OutboxMessageId, RecordOutboxPublicationFailureInput,
}
use xpens_go.Table.{HasUniqueKeys, select}
use xpens_go.Table.Laws.{select-own_All}

pub acknowledge-MeetsChecks :
    (receipts : List OutboxMessageReceipt) (m : OutboxMessage)
    → MeetsChecks m
    → MeetsChecks (acknowledge receipts m)
unfolding acknowledge
acknowledge-MeetsChecks receipts m h = ground arith

pub reopen_stalled-MeetsChecks :
    (now : ℕ) (input : ClaimPendingOutboxInput) (receipts : List OutboxMessageReceipt)
    (m : OutboxMessage)
    → MeetsChecks m
    → MeetsChecks (reopen_stalled now input receipts m)
unfolding reopen_stalled
reopen_stalled-MeetsChecks now input receipts m h = ground arith

pub exhaust-MeetsChecks :
    (now : ℕ) (input : ClaimPendingOutboxInput) (m : OutboxMessage)
    → MeetsChecks m
    → MeetsChecks (exhaust now input m)
unfolding exhaust
exhaust-MeetsChecks now input m h = ground arith

pub settle-MeetsChecks :
    (now : ℕ) (input : ClaimPendingOutboxInput) (receipts : List OutboxMessageReceipt)
    (m : OutboxMessage)
    → MeetsChecks m
    → MeetsChecks (settle now input receipts m)
unfolding settle
settle-MeetsChecks now input receipts m h =
    exhaust-MeetsChecks now input _
      (reopen_stalled-MeetsChecks now input receipts _ (acknowledge-MeetsChecks receipts m h))

pub owned-set_published-MeetsChecks :
    (now : ℕ) (id : OutboxMessageId) (c : OutboxClaimId) (m : OutboxMessage)
    → MeetsChecks m
    → MeetsChecks (if owns_claim id c m then set_published now m else m)
unfolding owns_claim set_published
owned-set_published-MeetsChecks now id c m h = ground arith

pub owned-set_failure-MeetsChecks :
    (now : ℕ) (input : RecordOutboxPublicationFailureInput) (m : OutboxMessage)
    → MeetsChecks m
    → MeetsChecks
        (if owns_claim input.outbox_message_id input.claim_id m then set_failure now input m else m)
unfolding owns_claim set_failure
owned-set_failure-MeetsChecks now input m h = ground arith

pub set_recovered-MeetsChecks :
    (now : ℕ) (receipts : List OutboxMessageReceipt) (id : OutboxMessageId) (m : OutboxMessage)
    → MeetsChecks m
    → MeetsChecks (if is_recoverable receipts id m then set_recovered now m else m)
unfolding is_recoverable set_recovered
set_recovered-MeetsChecks now receipts id m h = ground arith

pub lease-MeetsChecks :
    (uuid : OutboxMessageId → OutboxClaimId) (now : ℕ) (input : ClaimPendingOutboxInput)
    (m : OutboxMessage)
    → is_eligible now input m ≡ true
    → MeetsChecks m
    → MeetsChecks (lease uuid now input m)
unfolding is_eligible lease
lease-MeetsChecks uuid now input m e h = ground arith

-- The rows that the claiming UPDATE writes are pending, so that the claim is allowed on them.
pub lease_if-MeetsChecks :
    (uuid : OutboxMessageId → OutboxClaimId) (locked : OutboxMessageId → Bool) (now : ℕ)
    (input : ClaimPendingOutboxInput) (ms : List OutboxMessage)
    → HasUniqueKeys message_id ms
    → All MeetsChecks ms
    → All MeetsChecks (map (lease_if uuid now input (candidates now locked input ms)) ms)
lease_if-MeetsChecks uuid locked now input ms u h =
    All-map (λ m. MeetsChecks m × (select message_id m.id ms ≡ some m)) MeetsChecks _ ms
      (λ m hm. elim (Bool-cases (contains (candidates now locked input ms) m.id)) [
        | inl c ↦ rw c (
            lease-MeetsChecks uuid now input m
              (ground (arith, candidate-is_eligible now locked input ms m u hm.1 c)) hm.0)
        | inr c ↦ rw c hm.0
      ])
      (All-zip MeetsChecks _ _ ms (λ m a b. (a, b)) h (select-own_All message_id ms u))
