-- ===== src/Delivery/RecoveryStore.antt =====
-- packages/adapters/src/postgres/telegram-delivery-recovery-store.ts.
use xpens_go.Prelude.{
  Bool, List, Option, String, [], false, if◌then◌else◌, leb, map, none, not, some, str_eq, true, ℕ,
  ◌&&◌, ◌==◌, ◌||◌, ◌∷◌,
}
use xpens_go.Delivery.Rows.{
  DeliveryRecovery, DeliveryStatus, DeliveryTables, OutboundMessage, ReplyJob, delivering,
  message_id, outcome_unknown, pending, provider_accepted, terminal_failure,
}
use xpens_go.Delivery.Types.{
  MarkOutcome, NotRecoverableReason, OutboundChannelMessageId, PrepareOutcome, PublicationStatus,
  RecoverTelegramDeliveryInput, TelegramDeliveryRecoveryReason, already_published,
  attempt_limit_reached, error_code_mismatch, idempotency_conflict, newly_published, no_message,
  no_recovery, not_recoverable, not_terminal_failure, prepared, provider_configuration_corrected,
  published, ready, recipient_state_corrected, was_accepted, was_unknown,
}
use xpens_go.Outbox.Types.{OutboxMessageId}
use xpens_go.Table.{select, update}

abbrev pub same_reason : TelegramDeliveryRecoveryReason → TelegramDeliveryRecoveryReason → Bool
same_reason recipient_state_corrected recipient_state_corrected = true
same_reason provider_configuration_corrected provider_configuration_corrected = true
same_reason _ _ = false

abbrev pub find_recovery : String → List DeliveryRecovery → Option DeliveryRecovery
find_recovery id [] = none
find_recovery id (r ∷ rs) = if str_eq r.id id then some r else find_recovery id rs

-- The outbox row that the message's reply was requested by.
abbrev pub find_job : OutboundChannelMessageId → List ReplyJob → Option ReplyJob
find_job message [] = none
find_job message (j ∷ js) = if j.outbound_message_id == message then some j else find_job message js

abbrev pub same_code : Option String → String → Bool
same_code none code = false
same_code (some c) code = str_eq c code

-- The request that the recovery identifier was first used for.
unfoldable pub resume_recovery : RecoverTelegramDeliveryInput → DeliveryRecovery → PrepareOutcome
resume_recovery input existing =
    if not (existing.outbound_message_id == input.outbound_message_id)
      || not (str_eq existing.expected_error_code input.expected_error_code)
      || not (same_reason existing.reason input.reason)
    then not_recoverable idempotency_conflict
    else ready existing.publication_status existing.outbox_message_id existing.correlation_id

abbrev pub refusal_of_status : DeliveryStatus → Option NotRecoverableReason
refusal_of_status provider_accepted = some was_accepted
refusal_of_status outcome_unknown = some was_unknown
refusal_of_status pending = some not_terminal_failure
refusal_of_status delivering = some not_terminal_failure
refusal_of_status terminal_failure = none

-- Why a message may not be retried, in the order of the source's tests.
unfoldable pub refusal :
    RecoverTelegramDeliveryInput → ℕ → OutboundMessage → Option NotRecoverableReason
refusal input maximum m = elim (refusal_of_status m.status) [
  | some reason ↦ some reason
  | none ↦
      if not (same_code m.last_error_code input.expected_error_code)
      then some error_code_mismatch
      else if leb maximum m.delivery_attempts
      then some attempt_limit_reached
      else none
]

abbrev pub reopen_message : OutboundMessage → OutboundMessage
reopen_message m = record m {
  status = pending;
  delivery_claim_id = none;
  delivery_claimed_until = none;
  last_error_code = none;
  terminal_at = none;
}

abbrev pub new_recovery :
    RecoverTelegramDeliveryInput → OutboxMessageId → OutboundMessage → DeliveryRecovery
new_recovery input outbox m = record {
  id = input.recovery_id;
  outbound_message_id = m.id;
  outbox_message_id = outbox;
  correlation_id = m.correlation_id;
  expected_error_code = input.expected_error_code;
  reason = input.reason;
  publication_status = prepared;
  published_at = none;
}

unfoldable pub prepare_row :
    RecoverTelegramDeliveryInput
    → ℕ
    → OutboxMessageId
    → OutboundMessage
    → DeliveryTables
    → PrepareOutcome × DeliveryTables
prepare_row input maximum outbox m t = elim (refusal input maximum m) [
  | some reason ↦ (not_recoverable reason, t)
  | none ↦ (
    ready prepared outbox m.correlation_id,
    record t {
      messages = update message_id m.id reopen_message t.messages;
      recoveries = new_recovery input outbox m ∷ t.recoveries;
    },
  )
]

-- `prepare`: the same identifier resumes its recovery, and a new one reopens a message that the
-- provider has explicitly rejected.
unfoldable pub prepare :
    RecoverTelegramDeliveryInput → ℕ → DeliveryTables → PrepareOutcome × DeliveryTables
prepare input maximum t = elim (find_recovery input.recovery_id t.recoveries) [
  | some existing ↦ (resume_recovery input existing, t)
  | none ↦ elim (select message_id input.outbound_message_id t.messages) [
    | none ↦ (not_recoverable no_message, t)
    | some m ↦ elim (find_job m.id t.jobs) [
      | none ↦ (not_recoverable no_message, t)
      | some job ↦ prepare_row input maximum job.id m t
    ]
  ]
]

abbrev pub is_prepared : PublicationStatus → Bool
is_prepared prepared = true
is_prepared published = false

abbrev pub publish_recovery : ℕ → String → DeliveryRecovery → DeliveryRecovery
publish_recovery now id r =
    if str_eq r.id id && is_prepared r.publication_status
    then record r { publication_status = published; published_at = some now }
    else r

unfoldable pub mark_published : ℕ → String → DeliveryTables → MarkOutcome × DeliveryTables
mark_published now id t = elim (find_recovery id t.recoveries) [
  | none ↦ (no_recovery, t)
  | some r ↦ (
    if is_prepared r.publication_status then newly_published else already_published,
    record t { recoveries = map (publish_recovery now id) t.recoveries },
  )
]
