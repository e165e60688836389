-- ===== src/Events/Types.antt =====
-- The vocabulary of packages/domain/src/channel/process-telegram-event.ts. Identifiers are numbers.
use xpens_go.Prelude.{String, ℕ}
use xpens_go.Delivery.Types.{ChallengePurpose, OutboundChannelMessageId, TelegramReplyIntent}

abbrev pub InboundEventId : Type 0
InboundEventId = ℕ

abbrev pub ProcessingClaimId : Type 0
ProcessingClaimId = ℕ

-- `ChannelActorContext`, as far as processing reads it.
pub record Actor : Type 0 where
  pub user_id : ℕ
  pub ledger_id : ℕ
  pub channel_identity_id : ℕ

pub data EventContent : Type 0 where
  text_content : (text : String) → EventContent
  link_command unlink_command : (challenge_digest : String) → EventContent
  invalid_event_command : (command : ChallengePurpose) → EventContent

pub record ClaimedEvent : Type 0 where
  pub claim_id : ProcessingClaimId
  pub inbound_event_id : InboundEventId
  pub external_account_id : String
  pub content : EventContent

pub data ClaimEventOutcome : Type 0 where
  event_claimed : ClaimedEvent → ClaimEventOutcome
  event_duplicate event_missing event_rate_limited : ClaimEventOutcome
  event_deferred : (retry_after_seconds : ℕ) → ClaimEventOutcome

pub data EventCompletion : Type 0 where
  unscoped_reply : TelegramReplyIntent → EventCompletion
  scoped_reply : Actor → TelegramReplyIntent → EventCompletion
  linked_text_accepted : Actor → (text : String) → TelegramReplyIntent → EventCompletion

pub data UserLimit : Type 0 where
  within_limit over_limit : UserLimit

-- Why a challenge or an identity is refused.
pub data ChallengeRejectionError : Type 0 where
  identity_not_found challenge_consumed challenge_expired : ChallengeRejectionError
  challenge_not_found already_linked_elsewhere challenge_mismatch : ChallengeRejectionError

pub data IdentityError : Type 0 where
  identity_unavailable : IdentityError
  identity_rejected : ChallengeRejectionError → IdentityError

-- The store's own failure, and the two that processing adds.
pub data ProcessError : Type 0 where
  processing_unavailable identity_resolution_unavailable : ProcessError
  processing_deferred : (retry_after_seconds : ℕ) → ProcessError

pub data ProcessOutcome : Type 0 where
  processed : OutboundChannelMessageId → ProcessOutcome
  was_duplicate was_missing suppressed : ProcessOutcome
