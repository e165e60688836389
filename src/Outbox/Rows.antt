-- ===== src/Outbox/Rows.antt =====
-- The tables `outbox_messages` and `outbox_message_receipts`, as the migrations under
-- packages/adapters/src/postgres/migrations/ leave them, and the tests that the statements of
-- packages/adapters/src/postgres/outbox-store.ts make on a row. Times are whole milliseconds. A row
-- whose payload has no valid correlation identifier has `correlation_id = none`.
use xpens_go.Prelude.{
  ℕ, ◌+◌, ◌*◌, Bool, true, false, ◌||◌, Option, none, some, List, [], ◌∷◌, map, leb, contains,
}
use xpens_go.Outbox.Types.{OutboxMessageId, OutboxClaimId, CorrelationId, PublishErrorCode}

pub data OutboxStatus : Type 0 where
  pending published failed : OutboxStatus

abbrev pub is_pending : OutboxStatus → Bool
is_pending pending = true
is_pending _ = false

abbrev pub is_published : OutboxStatus → Bool
is_published published = true
is_published _ = false

abbrev pub is_failed : OutboxStatus → Bool
is_failed failed = true
is_failed _ = false

-- A row of `outbox_messages`.
pub record OutboxMessage : Type 0 where
  pub id : OutboxMessageId
  pub correlation_id : Option CorrelationId
  pub created_at : ℕ
  pub status : OutboxStatus
  pub published_at : Option ℕ
  pub failed_at : Option ℕ
  pub publish_attempts : ℕ
  pub publish_claim_id : Option OutboxClaimId
  pub publish_claimed_until : Option ℕ
  pub next_publish_attempt_at : ℕ
  pub last_publish_error_code : Option PublishErrorCode

-- A row of `outbox_message_receipts`.
pub record OutboxMessageReceipt : Type 0 where
  pub outbox_message_id : OutboxMessageId
  pub consumed_at : ℕ
  pub delivery_attempts : ℕ
  pub last_delivered_at : ℕ

pub record OutboxTables : Type 0 where
  pub messages : List OutboxMessage
  pub receipts : List OutboxMessageReceipt

abbrev pub message_id : OutboxMessage → OutboxMessageId
message_id m = m.id

abbrev pub receipt_id : OutboxMessageReceipt → OutboxMessageId
receipt_id r = r.outbox_message_id

-- EXISTS (SELECT 1 FROM outbox_message_receipts WHERE outbox_message_id = id)
abbrev pub has_receipt : List OutboxMessageReceipt → OutboxMessageId → Bool
has_receipt receipts id = contains (map receipt_id receipts) id

-- `time + seconds * INTERVAL '1 second'`
abbrev pub after_seconds : ℕ → ℕ → ℕ
after_seconds time seconds = time + seconds * 1000

-- `column IS NULL OR column <= now`
abbrev pub is_lapsed : Option ℕ → ℕ → Bool
is_lapsed none now = true
is_lapsed (some until) now = leb until now

-- `published_at <= now - timeout`, which a NULL does not pass.
abbrev pub is_stalled : Option ℕ → ℕ → ℕ → Bool
is_stalled none timeout now = false
is_stalled (some at) timeout now = leb (after_seconds at timeout) now

-- Whether a statement's WHERE fits some row.
abbrev pub any_row : (OutboxMessage → Bool) → List OutboxMessage → Bool
any_row p [] = false
any_row p (m ∷ ms) = p m || any_row p ms
