-- ===== src/Outbox/Checks.antt =====
-- The CHECK constraints and primary keys of the outbox tables, from
-- packages/adapters/src/postgres/migrations/0002-outbox-dispatch.ts, 0003-outbox-recovery-policy.ts
-- and 0006-outbox-consumption-observability.ts. A statement that breaks one fails in PostgreSQL.
use xpens_go.Prelude.{◌≡◌, Bool, true, not, ◌&&◌, ◌||◌, is_none, All, ltb}
use xpens_go.Table.{HasUniqueKeys}
use xpens_go.Outbox.Rows.{
  is_pending, is_published, is_failed, OutboxMessage, OutboxMessageReceipt, OutboxTables,
  message_id, receipt_id,
}

-- outbox_messages_publish_claim_complete
abbrev pub publish_claim_complete : OutboxMessage → Bool
publish_claim_complete m =
    (is_none m.publish_claim_id && is_none m.publish_claimed_until)
    || (is_pending m.status
        && not (is_none m.publish_claim_id)
        && not (is_none m.publish_claimed_until))

-- outbox_messages_publication_state
abbrev pub publication_state : OutboxMessage → Bool
publication_state m =
    (is_pending m.status && is_none m.published_at && is_none m.failed_at)
    || (is_published m.status && not (is_none m.published_at) && is_none m.failed_at)
    || (is_failed m.status
        && is_none m.published_at
        && not (is_none m.failed_at)
        && not (is_none m.last_publish_error_code))

-- outbox_message_receipts_delivery_attempts_positive
abbrev pub delivery_attempts_positive : OutboxMessageReceipt → Bool
delivery_attempts_positive r = ltb 0 r.delivery_attempts

abbrev pub MeetsChecks : OutboxMessage → Type 0
MeetsChecks m = (publish_claim_complete m ≡ true) × (publication_state m ≡ true)

abbrev pub IsPositive : OutboxMessageReceipt → Type 0
IsPositive r = delivery_attempts_positive r ≡ true

pub record IsConsistent (t : OutboxTables) : Type 0 where
  pub checks : All MeetsChecks t.messages
  pub positive : All IsPositive t.receipts
  pub message_keys : HasUniqueKeys message_id t.messages
  pub receipt_keys : HasUniqueKeys receipt_id t.receipts
