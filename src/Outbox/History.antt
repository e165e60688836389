-- ===== src/Outbox/History.antt =====
-- Sequences of outbox operations: what producers, dispatchers, Queue consumers and the operator do
-- to the two tables, in the order in which their transactions commit.
pub mod RowChecks
pub mod Consistency
pub mod Receipts
pub mod Leased
pub mod LeaseSteps
pub mod Leases
pub mod Superseded
use xpens_go.Prelude.{
  ℕ, Bool, true, false, Option, none, some, List, [], ◌∷◌, map, contains, if◌then◌else◌,
}
use xpens_go.Outbox.Types.{
  OutboxMessageId, OutboxClaimId, CorrelationId, ClaimPendingOutboxInput, MarkOutboxPublishedInput,
  RecordOutboxPublicationFailureInput,
}
use xpens_go.Outbox.Rows.{pending, OutboxMessage, OutboxTables, message_id}
use xpens_go.Outbox.ClaimPending.{claim_pending}
use xpens_go.Outbox.Transitions.{
  mark_published, record_publication_failure, record_consumption, recover_failed_publication,
}

-- The row that an INSERT INTO outbox_messages makes, its other columns at their defaults.
abbrev pub fresh_message : ℕ → OutboxMessageId → CorrelationId → OutboxMessage
fresh_message now id correlation = record {
  id = id;
  correlation_id = some correlation;
  created_at = now;
  status = pending;
  published_at = none;
  failed_at = none;
  publish_attempts = 0;
  publish_claim_id = none;
  publish_claimed_until = none;
  next_publish_attempt_at = now;
  last_publish_error_code = none;
}

-- A key that is taken makes the INSERT fail, and nothing changes.
unfoldable pub insert_message : ℕ → OutboxMessageId → CorrelationId → OutboxTables → OutboxTables
insert_message now id correlation t =
    if contains (map message_id t.messages) id
    then t
    else record t { messages = fresh_message now id correlation ∷ t.messages }

pub data Operation : Type 0 where
  insert : ℕ → OutboxMessageId → CorrelationId → Operation
  claim :
      (OutboxMessageId → OutboxClaimId)
      → (OutboxMessageId → Bool)
      → ℕ
      → ClaimPendingOutboxInput
      → Operation
  mark : ℕ → MarkOutboxPublishedInput → Operation
  failure : ℕ → RecordOutboxPublicationFailureInput → Operation
  consume : ℕ → OutboxMessageId → Operation
  recover : ℕ → OutboxMessageId → Operation

unfoldable pub execute : Operation → OutboxTables → OutboxTables
execute (insert now id correlation) t = insert_message now id correlation t
execute (claim uuid locked now input) t = (claim_pending uuid locked now input t).1
execute (mark now input) t = (mark_published now input t).1
execute (failure now input) t = (record_publication_failure now input t).1
execute (consume now id) t = (record_consumption now id t).1
execute (recover now id) t = (recover_failed_publication now id t).1

unfoldable pub history : List Operation → OutboxTables → OutboxTables
history [] t = t
history (o ∷ os) t = history os (execute o t)
