-- ===== src/Outbox/Dispatch.antt =====
-- `dispatchPendingOutbox` and `recordOutboxConsumption` of
-- packages/domain/src/outbox/outbox-delivery.ts, over the services that they are given: records of
-- operations on a state `S` which the services share.
--
-- The messages of a batch are handled in the order of the batch. The source handles up to five at
-- once; a handler touches only the row of its own message and the claim that it holds.
pub mod Retry
pub mod Summary
pub mod Postgres
use xpens_go.Prelude.{
  Bool, List, [], false, filter, if◌then◌else◌, leb, length, max, min, true, ℕ, ◌*◌, ◌-◌, ◌^◌, ◌∷◌,
}
use xpens_go.Effect.{Effect, Result, either, err, ok, succeed, ◌>>=◌, ◌>>◌}
use xpens_go.Outbox.Rows.{failed, published}
use xpens_go.Outbox.Transitions.{is_terminal}
use xpens_go.Outbox.Types.{
  ClaimPendingOutboxInput, ClaimedOutboxPublication, CorrelationId, MarkOutboxPublishedInput,
  OutboxConsumptionOutcome, OutboxDispatchSummary, OutboxError, OutboxMessageId,
  OutboxPublicationError, OutboxPublicationFailureDisposition, RecordOutboxPublicationFailureInput,
  dispatch_batch_size, maximum_publication_attempts, publication_lease_seconds,
  publication_outcome_unknown, publication_unavailable, queue_outcome_unknown, queue_unavailable,
  receipt_timeout_seconds, retry, terminal,
}

-- `OutboxPersistenceService`.
pub record OutboxPersistence (S : Type 0) : Type 0 where
  pub claim_pending : ClaimPendingOutboxInput → Effect S OutboxError (List ClaimedOutboxPublication)
  pub mark_published : MarkOutboxPublishedInput → Effect S OutboxError (Unit {0})
  pub record_publication_failure :
      RecordOutboxPublicationFailureInput → Effect S OutboxError (Unit {0})
  pub record_consumption : OutboxMessageId → Effect S OutboxError OutboxConsumptionOutcome

-- `OutboxPublicationService`.
pub record OutboxPublication (S : Type 0) : Type 0 where
  pub publish : OutboxMessageId → CorrelationId → Effect S OutboxPublicationError (Unit {0})

pub data TelemetryEvent : Type 0 where
  publication_succeeded publication_deferred publication_failed :
      OutboxMessageId → CorrelationId → (attempt : ℕ) → TelemetryEvent
  outcome_unknown : OutboxMessageId → CorrelationId → (attempt : ℕ) → TelemetryEvent
  consumption_recorded : OutboxMessageId → CorrelationId → OutboxConsumptionOutcome → TelemetryEvent

-- `RuntimeTelemetry`: emitting cannot fail.
pub record RuntimeTelemetry (S : Type 0) : Type 0 where
  pub emit : TelemetryEvent → S → S

-- `2 ** n`, in `retryDelaySeconds`.
unfoldable pub retry_delay_seconds : ℕ → ℕ
retry_delay_seconds attempt = min (30 * 2 ^ min (max (attempt - 1) 0) 6) 1800

pub data DispatchOutcome : Type 0 where
  was_published was_deferred was_failed : DispatchOutcome

abbrev pub is_outcome_unknown : OutboxPublicationError → Bool
is_outcome_unknown (publication_unavailable _) = false
is_outcome_unknown (publication_outcome_unknown _) = true

abbrev pub disposition_of : ClaimedOutboxPublication → OutboxPublicationFailureDisposition
disposition_of message =
    if leb maximum_publication_attempts message.attempt then terminal else retry

-- The input of `recordPublicationFailure` that a failed publication gives.
unfoldable pub failure_input :
    ClaimedOutboxPublication → OutboxPublicationError → RecordOutboxPublicationFailureInput
failure_input message error = record {
  outbox_message_id = message.outbox_message_id;
  claim_id = message.claim_id;
  error_code = if is_outcome_unknown error then queue_outcome_unknown else queue_unavailable;
  retry_delay_seconds =
      if is_outcome_unknown error
      then receipt_timeout_seconds
      else retry_delay_seconds message.attempt;
  disposition = disposition_of message;
}

unfoldable pub failure_event : ClaimedOutboxPublication → OutboxPublicationError → TelemetryEvent
failure_event message error =
    if is_outcome_unknown error
    then outcome_unknown message.outbox_message_id message.correlation_id message.attempt
    else if is_terminal (disposition_of message)
    then publication_failed message.outbox_message_id message.correlation_id message.attempt
    else publication_deferred message.outbox_message_id message.correlation_id message.attempt

abbrev pub failure_outcome : ClaimedOutboxPublication → DispatchOutcome
failure_outcome message = if is_terminal (disposition_of message) then was_failed else was_deferred

abbrev pub dispatch_input : ClaimPendingOutboxInput
dispatch_input = record {
  limit = dispatch_batch_size;
  lease_duration_seconds = publication_lease_seconds;
  maximum_attempts = maximum_publication_attempts;
  receipt_timeout_seconds = receipt_timeout_seconds;
}

abbrev pub same_outcome : DispatchOutcome → DispatchOutcome → Bool
same_outcome was_published was_published = true
same_outcome was_deferred was_deferred = true
same_outcome was_failed was_failed = true
same_outcome _ _ = false

-- `outcomes.filter((outcome) => outcome === kind).length`
abbrev pub tally : DispatchOutcome → List DispatchOutcome → ℕ
tally kind outcomes = length (filter (same_outcome kind) outcomes)

unfoldable pub summarize :
    List ClaimedOutboxPublication → List DispatchOutcome → OutboxDispatchSummary
summarize claimed outcomes =
    let published = tally was_published outcomes in
    let failed = tally was_failed outcomes in
    record {
      claimed = length claimed;
      published = published;
      deferred = length outcomes - published - failed;
      failed = failed;
    }

module _ {S : Type 0} (persistence : OutboxPersistence S) (publication : OutboxPublication S)
    (telemetry : RuntimeTelemetry S) where
  -- `telemetry.emit(event)` before the outcome is returned.
  abbrev pub emit_then : {E A : Type 0} → TelemetryEvent → A → Effect S E A
  emit_then event outcome s = (ok outcome, telemetry.emit event s)

  -- `Effect.matchEffect` on the result of publishing.
  unfoldable pub settle_publication :
      ClaimedOutboxPublication
      → Result OutboxPublicationError (Unit {0})
      → Effect S OutboxError DispatchOutcome
  settle_publication message (err error) =
      persistence.record_publication_failure (failure_input message error)
      >> emit_then (failure_event message error) (failure_outcome message)
  settle_publication message (ok _) =
      persistence.mark_published
        (record { outbox_message_id = message.outbox_message_id; claim_id = message.claim_id })
      >> emit_then
          (publication_succeeded message.outbox_message_id message.correlation_id message.attempt)
          was_published

  unfoldable pub handle_message : ClaimedOutboxPublication → Effect S OutboxError DispatchOutcome
  handle_message message = do
    result ← either (publication.publish message.outbox_message_id message.correlation_id)
    settle_publication message result

  -- `Effect.forEach`: the first failure ends the dispatch.
  unfoldable pub handle_all :
      List ClaimedOutboxPublication → Effect S OutboxError (List DispatchOutcome)
  handle_all [] = succeed []
  handle_all (message ∷ rest) = handle_message message >>= λ outcome.
      handle_all rest >>= λ outcomes. succeed (outcome ∷ outcomes)

  unfoldable pub dispatch_pending_outbox : Effect S OutboxError OutboxDispatchSummary
  dispatch_pending_outbox = do
    claimed ← persistence.claim_pending dispatch_input
    outcomes ← handle_all claimed
    succeed (summarize claimed outcomes)

  unfoldable pub record_outbox_consumption :
      OutboxMessageId → CorrelationId → Effect S OutboxError OutboxConsumptionOutcome
  record_outbox_consumption id correlation = do
    outcome ← persistence.record_consumption id
    emit_then (consumption_recorded id correlation outcome) outcome
