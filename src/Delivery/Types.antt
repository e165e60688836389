-- ===== src/Delivery/Types.antt =====
-- The vocabulary of Telegram delivery: packages/domain/src/channel/outbound-channel-intent.ts,
-- deliver-telegram-reply.ts and recover-telegram-delivery.ts.
use xpens_go.Prelude.{List, String, ℕ}
use xpens_go.Outbox.Types.{CorrelationId, OutboxMessageId}

abbrev pub OutboundChannelMessageId : Type 0
OutboundChannelMessageId = ℕ

abbrev pub ChannelDeliveryAttemptId : Type 0
ChannelDeliveryAttemptId = ℕ

pub data ChallengePurpose : Type 0 where
  link unlink : ChallengePurpose

pub data RejectionReason : Type 0 where
  already_linked already_used expired identity_mismatch invalid_command not_found : RejectionReason

pub data TelegramReplyContent : Type 0 where
  link_succeeded unlink_succeeded link_required capture_unavailable : TelegramReplyContent
  challenge_rejected : ChallengePurpose → RejectionReason → TelegramReplyContent

pub data OutboundChannelAction : Type 0 where
  open_web : OutboundChannelAction

pub data IntentPurpose : Type 0 where
  reply system : IntentPurpose

-- `TelegramReplyIntentV1`; its fields with one possible value are left out.
pub record TelegramReplyIntent : Type 0 where
  pub purpose : IntentPurpose
  pub content : TelegramReplyContent
  pub actions : List OutboundChannelAction

pub record TelegramDeliveryPolicy : Type 0 where
  pub maximum_attempts : ℕ
  pub lease_seconds : ℕ

abbrev pub default_telegram_delivery_policy : TelegramDeliveryPolicy
default_telegram_delivery_policy = record { maximum_attempts = 3; lease_seconds = 60 }

pub record TelegramReplyClaimed : Type 0 where
  pub attempt_id : ChannelDeliveryAttemptId
  pub outbound_message_id : OutboundChannelMessageId
  pub external_conversation_id : String
  pub intent : TelegramReplyIntent

pub data ClaimTelegramReplyOutcome : Type 0 where
  claimed : TelegramReplyClaimed → ClaimTelegramReplyOutcome
  terminal reply_missing : ClaimTelegramReplyOutcome
  deferred : (retry_after_seconds : ℕ) → ClaimTelegramReplyOutcome

pub data TelegramProviderAttemptOutcome : Type 0 where
  outcome_accepted : (provider_message_id : String) → TelegramProviderAttemptOutcome
  outcome_transient outcome_terminal outcome_ambiguous :
      (error_code : String) → TelegramProviderAttemptOutcome

-- The provider's three failures, each with its safe code.
pub data TelegramProviderError : Type 0 where
  provider_transient_failure provider_terminal_failure provider_outcome_unknown :
      (error_code : String) → TelegramProviderError

pub data DeliveryOperation : Type 0 where
  claim_telegram_reply complete_telegram_reply_attempt : DeliveryOperation

-- `TelegramDeliveryPersistenceUnavailable` and `TelegramReplyDeliveryDeferred`.
pub data DeliveryError : Type 0 where
  persistence_unavailable : DeliveryOperation → DeliveryError
  delivery_deferred : (retry_after_seconds : ℕ) → DeliveryError

pub data DeliverTelegramReplyOutcome : Type 0 where
  reply_accepted reply_terminal reply_unknown reply_not_found : DeliverTelegramReplyOutcome

pub data TelegramDeliveryRecoveryReason : Type 0 where
  recipient_state_corrected provider_configuration_corrected : TelegramDeliveryRecoveryReason

pub data NotRecoverableReason : Type 0 where
  no_message not_terminal_failure was_accepted was_unknown : NotRecoverableReason
  error_code_mismatch attempt_limit_reached idempotency_conflict : NotRecoverableReason

pub record RecoverTelegramDeliveryInput : Type 0 where
  pub recovery_id : String
  pub outbound_message_id : OutboundChannelMessageId
  pub expected_error_code : String
  pub reason : TelegramDeliveryRecoveryReason

pub data PublicationStatus : Type 0 where
  prepared published : PublicationStatus

pub data PrepareOutcome : Type 0 where
  ready : PublicationStatus → OutboxMessageId → CorrelationId → PrepareOutcome
  not_recoverable : NotRecoverableReason → PrepareOutcome

pub data MarkOutcome : Type 0 where
  newly_published already_published no_recovery : MarkOutcome
