-- ===== src/Outbox/History/Receipts.antt =====
-- Receipts over sequences of operations.
use xpens_go.Prelude.{Bool, List, Option-cases, [], arith, false, inl, inr, true, ℕ, ◌∷◌, ◌≡◌}
use xpens_go.Effect.{ok}
use xpens_go.Outbox.ClaimPending.{claim_pending}
use xpens_go.Outbox.ClaimPending.Batch.{claim_pending-receipts, claims}
use xpens_go.Outbox.ClaimPending.Receipts.{consumed-claims}
use xpens_go.Outbox.History.{
  Operation, claim, consume, execute, failure, history, insert, insert_message, mark, recover,
}
use xpens_go.Outbox.Rows.{OutboxMessageReceipt, OutboxTables, has_receipt, receipt_id}
use xpens_go.Outbox.Transitions.{
  mark_published, record_consumption, record_publication_failure, recover_failed_publication,
  redeliver, upsert_receipt,
}
use xpens_go.Outbox.Transitions.Laws.{redeliver-KeepsKey, resolve_claim_transition-tables}
use xpens_go.Outbox.Types.{
  ClaimPendingOutboxInput, ClaimedOutboxPublication, OutboxClaimId, OutboxMessageId,
}
use xpens_go.Table.{select}
use xpens_go.Table.Laws.{map-key-update}

upsert_receipt-has_receipt :
    (now : ℕ) (id : OutboxMessageId) (rs : List OutboxMessageReceipt) (k : OutboxMessageId)
    → has_receipt rs k ≡ true
    → has_receipt (upsert_receipt now id rs).1 k ≡ true
unfolding upsert_receipt
upsert_receipt-has_receipt now id rs k h = elim (Option-cases (select receipt_id id rs)) [
  | inl absent ↦ rw (absent, upsert_receipt) (ground (arith, h))
  | inr (r, found) ↦
      rw (found, upsert_receipt)
        (rw (map-key-update receipt_id id (redeliver now) (redeliver-KeepsKey now) rs) h)
]

-- No operation takes a receipt away.
pub execute-has_receipt :
    (o : Operation) (t : OutboxTables) (k : OutboxMessageId)
    → has_receipt t.receipts k ≡ true
    → has_receipt (execute o t).receipts k ≡ true
unfolding execute
execute-has_receipt (insert now id correlation) t k h = unfold insert_message in ground arith
execute-has_receipt (claim uuid locked now input) t k h =
    rw (claim_pending-receipts uuid locked now input t) h
execute-has_receipt (mark now input) t k h =
    unfold mark_published in rw resolve_claim_transition-tables h
execute-has_receipt (failure now input) t k h =
    unfold record_publication_failure in rw resolve_claim_transition-tables h
execute-has_receipt (consume now id) t k h =
    unfold record_consumption in ground (arith, upsert_receipt-has_receipt now id t.receipts k h)
execute-has_receipt (recover now id) t k h = unfold recover_failed_publication in h

pub history-has_receipt :
    (os : List Operation) (t : OutboxTables) (k : OutboxMessageId)
    → has_receipt t.receipts k ≡ true
    → has_receipt (history os t).receipts k ≡ true
unfolding history
history-has_receipt [] t k h = h
history-has_receipt (o ∷ os) t k h =
    history-has_receipt os (execute o t) k (execute-has_receipt o t k h)

-- Once a message has a receipt, no dispatcher ever claims it again, whatever operations of
-- producers, dispatchers, consumers and the operator come in between.
pub consumed_never_claimed :
    (os : List Operation) (t t' : OutboxTables) (k : OutboxMessageId)
    (uuid : OutboxMessageId → OutboxClaimId) (locked : OutboxMessageId → Bool) (now : ℕ)
    (input : ClaimPendingOutboxInput) (batch : List ClaimedOutboxPublication)
    → has_receipt t.receipts k ≡ true
    → claim_pending uuid locked now input (history os t) ≡ (ok batch, t')
    → claims batch k ≡ false
consumed_never_claimed os t t' k uuid locked now input batch h e =
    consumed-claims uuid locked now input (history os t) t' batch k e (history-has_receipt os t k h)
