-- ===== src/Outbox/Types.antt =====
-- The vocabulary of packages/domain/src/outbox/outbox-delivery.ts: policies, claims, inputs,
-- outcomes and failures. UUIDs are numbers, of which the code only asks whether they are equal.
use xpens_go.Prelude.{ℕ}

abbrev pub OutboxMessageId : Type 0
OutboxMessageId = ℕ

abbrev pub OutboxClaimId : Type 0
OutboxClaimId = ℕ

abbrev pub CorrelationId : Type 0
CorrelationId = ℕ

-- One outbox message leased to a dispatcher invocation.
pub record ClaimedOutboxPublication : Type 0 where
  pub outbox_message_id : OutboxMessageId
  pub claim_id : OutboxClaimId
  pub correlation_id : CorrelationId
  pub attempt : ℕ

pub record ClaimPendingOutboxInput : Type 0 where
  pub limit : ℕ
  pub lease_duration_seconds : ℕ
  pub maximum_attempts : ℕ
  pub receipt_timeout_seconds : ℕ

pub record MarkOutboxPublishedInput : Type 0 where
  pub outbox_message_id : OutboxMessageId
  pub claim_id : OutboxClaimId

pub data OutboxPublicationFailureDisposition : Type 0 where
  retry terminal : OutboxPublicationFailureDisposition

-- The codes that the dispatcher stores, and the two that the store writes by itself.
pub data PublishErrorCode : Type 0 where
  queue_outcome_unknown queue_unavailable : PublishErrorCode
  consumer_stalled publication_attempts_exhausted : PublishErrorCode

pub record RecordOutboxPublicationFailureInput : Type 0 where
  pub outbox_message_id : OutboxMessageId
  pub claim_id : OutboxClaimId
  pub error_code : PublishErrorCode
  pub retry_delay_seconds : ℕ
  pub disposition : OutboxPublicationFailureDisposition

pub data OutboxConsumptionOutcome : Type 0 where
  processed duplicate not_found : OutboxConsumptionOutcome

pub data OutboxOperation : Type 0 where
  claim_pending_outbox mark_outbox_published record_outbox_publication_failure : OutboxOperation
  record_outbox_consumption recover_failed_outbox_publication : OutboxOperation

-- `OutboxPersistenceUnavailable` and `OutboxPublicationStateConflict`.
pub data OutboxError : Type 0 where
  persistence_unavailable : OutboxOperation → OutboxError
  state_conflict : OutboxOperation → OutboxMessageId → OutboxError

-- `OutboxPublicationUnavailable` and `OutboxPublicationOutcomeUnknown`.
pub data OutboxPublicationError : Type 0 where
  publication_unavailable publication_outcome_unknown : OutboxMessageId → OutboxPublicationError

pub record OutboxDispatchSummary : Type 0 where
  pub claimed : ℕ
  pub published : ℕ
  pub deferred : ℕ
  pub failed : ℕ

-- The policy that `dispatchPendingOutbox` runs with.
abbrev pub dispatch_batch_size : ℕ
dispatch_batch_size = 10

abbrev pub publication_lease_seconds : ℕ
publication_lease_seconds = 120

abbrev pub maximum_publication_attempts : ℕ
maximum_publication_attempts = 5

abbrev pub receipt_timeout_seconds : ℕ
receipt_timeout_seconds = 600
