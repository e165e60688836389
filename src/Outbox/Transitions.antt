-- ===== src/Outbox/Transitions.antt =====
-- The other statements of packages/adapters/src/postgres/outbox-store.ts: the two ways to give a
-- publication claim back, the consumer's receipt, and the operator's recovery.
pub mod Laws
pub mod Consumption
use xpens_go.Prelude.{
  ℕ, ◌+◌, Bool, true, false, not, ◌&&◌, none, some, List, ◌∷◌, map, ◌==◌, if◌then◌else◌, holds,
}
use xpens_go.Effect.{Effect, ok, err}
use xpens_go.Table.{select, update}
use xpens_go.Outbox.Types.{
  OutboxMessageId, OutboxClaimId, MarkOutboxPublishedInput, OutboxPublicationFailureDisposition,
  retry, terminal, RecordOutboxPublicationFailureInput, OutboxConsumptionOutcome, processed,
  duplicate, not_found, OutboxOperation, mark_outbox_published, record_outbox_publication_failure,
  OutboxError, persistence_unavailable, state_conflict,
}
use xpens_go.Outbox.Rows.{
  pending, published, failed, is_pending, is_published, is_failed, OutboxMessage,
  OutboxMessageReceipt, OutboxTables, message_id, receipt_id, has_receipt, after_seconds, any_row,
}

-- WHERE id = … AND status = 'pending' AND publish_claim_id = …
unfoldable pub owns_claim : OutboxMessageId → OutboxClaimId → OutboxMessage → Bool
owns_claim id claim m = m.id == id && is_pending m.status && holds m.publish_claim_id claim

-- `resolveClaimTransition`, for an update that changed a row or not.
unfoldable pub resolve_claim_transition :
    OutboxOperation → OutboxMessageId → Bool → Effect OutboxTables OutboxError (Unit {0})
resolve_claim_transition operation id true t = (ok tt, t)
resolve_claim_transition operation id false t = elim (select message_id id t.messages) [
  | none ↦ (err (persistence_unavailable operation), t)
  | some m ↦ if is_published m.status then (ok tt, t) else (err (state_conflict operation id), t)
]

unfoldable pub set_published : ℕ → OutboxMessage → OutboxMessage
set_published now m = record m {
  status = published;
  published_at = some now;
  publish_claim_id = none;
  publish_claimed_until = none;
  last_publish_error_code = none;
}

unfoldable pub mark_published :
    ℕ → MarkOutboxPublishedInput → Effect OutboxTables OutboxError (Unit {0})
mark_published now input t =
    let owned = owns_claim input.outbox_message_id input.claim_id in
    let updated = map (λ m. if owned m then set_published now m else m) t.messages in
    resolve_claim_transition mark_outbox_published input.outbox_message_id
      (any_row owned t.messages) (record t { messages = updated })

abbrev pub is_terminal : OutboxPublicationFailureDisposition → Bool
is_terminal terminal = true
is_terminal retry = false

unfoldable pub set_failure : ℕ → RecordOutboxPublicationFailureInput → OutboxMessage → OutboxMessage
set_failure now input m =
    let ended = is_terminal input.disposition in
    record m {
      status = if ended then failed else pending;
      failed_at = if ended then some now else none;
      publish_claim_id = none;
      publish_claimed_until = none;
      next_publish_attempt_at = if ended then now else after_seconds now input.retry_delay_seconds;
      last_publish_error_code = some input.error_code;
    }

unfoldable pub record_publication_failure :
    ℕ → RecordOutboxPublicationFailureInput → Effect OutboxTables OutboxError (Unit {0})
record_publication_failure now input t =
    let owned = owns_claim input.outbox_message_id input.claim_id in
    let updated = map (λ m. if owned m then set_failure now input m else m) t.messages in
    resolve_claim_transition record_outbox_publication_failure input.outbox_message_id
      (any_row owned t.messages) (record t { messages = updated })

-- ON CONFLICT (outbox_message_id) DO UPDATE
unfoldable pub redeliver : ℕ → OutboxMessageReceipt → OutboxMessageReceipt
redeliver now r = record r { delivery_attempts = r.delivery_attempts + 1; last_delivered_at = now }

abbrev pub first_receipt : ℕ → OutboxMessageId → OutboxMessageReceipt
first_receipt now id = record {
  outbox_message_id = id;
  consumed_at = now;
  delivery_attempts = 1;
  last_delivered_at = now;
}

-- The upsert, and the count that it returns.
unfoldable pub upsert_receipt :
    ℕ → OutboxMessageId → List OutboxMessageReceipt → ℕ × List OutboxMessageReceipt
upsert_receipt now id receipts = elim (select receipt_id id receipts) [
  | none ↦ (1, first_receipt now id ∷ receipts)
  | some r ↦ (r.delivery_attempts + 1, update receipt_id id (redeliver now) receipts)
]

abbrev pub consumption_of : ℕ → OutboxConsumptionOutcome
consumption_of attempts = if attempts == 1 then processed else duplicate

unfoldable pub record_consumption :
    ℕ → OutboxMessageId → Effect OutboxTables OutboxError OutboxConsumptionOutcome
record_consumption now id t = elim (select message_id id t.messages) [
  | none ↦ (ok not_found, t)
  | some _ ↦
      let (attempts, receipts) = upsert_receipt now id t.receipts in
      (ok (consumption_of attempts), record t { receipts = receipts })
]

-- The WHERE of the operator's recovery.
unfoldable pub is_recoverable : List OutboxMessageReceipt → OutboxMessageId → OutboxMessage → Bool
is_recoverable receipts id m = m.id == id && is_failed m.status && not (has_receipt receipts m.id)

unfoldable pub set_recovered : ℕ → OutboxMessage → OutboxMessage
set_recovered now m = record m {
  status = pending;
  published_at = none;
  failed_at = none;
  publish_attempts = 0;
  publish_claim_id = none;
  publish_claimed_until = none;
  next_publish_attempt_at = now;
  last_publish_error_code = none;
}

unfoldable pub recover_failed_publication :
    ℕ → OutboxMessageId → Effect OutboxTables OutboxError Bool
recover_failed_publication now id t =
    let recoverable = is_recoverable t.receipts id in
    let updated = map (λ m. if recoverable m then set_recovered now m else m) t.messages in
    (ok (any_row recoverable t.messages), record t { messages = updated })
