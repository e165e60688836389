-- ===== src/Outbox/ClaimPending/Receipts.antt =====
-- A consumed message is never claimed again.
use xpens_go.Prelude.{==_iff, All-of, Bool, List, arith, false, subst, sym, true, ℕ, ◌≡◌}
use xpens_go.Effect.{ok}
use xpens_go.Outbox.ClaimPending.{
  acknowledge, claim_pending, exhaust, is_eligible, reopen_stalled, settle,
}
use xpens_go.Outbox.ClaimPending.Batch.{claims, ineligible-claims}
use xpens_go.Outbox.Rows.{
  OutboxMessage, OutboxMessageReceipt, OutboxTables, has_receipt, published, receipt_id,
}
use xpens_go.Outbox.Types.{
  ClaimPendingOutboxInput, ClaimedOutboxPublication, OutboxClaimId, OutboxMessageId,
}
use xpens_go.Table.Laws.{select-contains}

-- The clean-up publishes a consumed message, and none of its later statements takes that back.
pub settle-consumed :
    (now : ℕ) (input : ClaimPendingOutboxInput) (receipts : List OutboxMessageReceipt)
    (m : OutboxMessage)
    → has_receipt receipts m.id ≡ true
    → (settle now input receipts m).status ≡ published
unfolding settle acknowledge reopen_stalled exhaust
settle-consumed now input receipts m h =
    let (r, found) = select-contains receipt_id m.id receipts h in ground arith

consumed-is_eligible :
    (now : ℕ) (input : ClaimPendingOutboxInput) (receipts : List OutboxMessageReceipt)
    (m : OutboxMessage)
    → has_receipt receipts m.id ≡ true
    → is_eligible now input (settle now input receipts m) ≡ false
unfolding is_eligible
consumed-is_eligible now input receipts m h = rw (settle-consumed now input receipts m h)

-- A dispatcher's batch holds no message that has a receipt.
pub consumed-claims :
    (uuid : OutboxMessageId → OutboxClaimId) (locked : OutboxMessageId → Bool) (now : ℕ)
    (input : ClaimPendingOutboxInput) (t t' : OutboxTables) (batch : List ClaimedOutboxPublication)
    (k : OutboxMessageId)
    → claim_pending uuid locked now input t ≡ (ok batch, t')
    → has_receipt t.receipts k ≡ true
    → claims batch k ≡ false
consumed-claims uuid locked now input t t' batch k e h =
    ineligible-claims uuid locked now input t t' batch k e (
      All-of _ t.messages (λ m same.
        consumed-is_eligible now input t.receipts m
          (subst (λ x. has_receipt t.receipts x ≡ true) (sym ((==_iff m.id k).0 same)) h)))
