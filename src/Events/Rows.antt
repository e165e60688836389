-- ===== src/Events/Rows.antt =====
-- The tables of Telegram event processing, from packages/adapters/src/postgres/migrations/
-- 0008-telegram-ingress.ts and 0009-telegram-processing.ts. Foreign keys, and the bounds on the
-- length of texts, are not modelled.
use xpens_go.Prelude.{Bool, List, Option, String, ℕ, ◌==◌}
use xpens_go.Delivery.Types.{OutboundChannelMessageId, TelegramReplyIntent}
use xpens_go.Events.Types.{EventContent, InboundEventId, ProcessingClaimId}
use xpens_go.Outbox.Types.{CorrelationId, OutboxMessageId}

pub data ProcessingStatus : Type 0 where
  awaiting in_process event_processed event_suppressed : ProcessingStatus

pub data ProcessingOutcome : Type 0 where
  abuse_limited user_abuse_limited : ProcessingOutcome
  normalized_text_accepted scoped_reply_created unscoped_reply_created : ProcessingOutcome

-- `normalized_payload`, as far as processing reads it.
pub record EventPayload : Type 0 where
  pub external_account_id : String
  pub external_conversation_id : String
  pub external_message_id : String
  pub occurred_at_millis : ℕ
  pub content : EventContent

-- A row of `inbound_channel_events`.
pub record InboundEvent : Type 0 where
  pub id : InboundEventId
  pub external_event_id : String
  pub correlation_id : CorrelationId
  pub normalized_payload : Option EventPayload
  pub processing_status : ProcessingStatus
  pub processing_outcome : Option ProcessingOutcome
  pub processed_at : Option ℕ
  pub processing_claim_id : Option ProcessingClaimId
  pub processing_claimed_until : Option ℕ
  pub processing_attempts : ℕ
  pub abuse_checked_at : Option ℕ
  pub abuse_allowed : Option Bool
  pub user_abuse_checked_at : Option ℕ
  pub user_abuse_allowed : Option Bool
  pub owner_user_id : Option ℕ
  pub ledger_id : Option ℕ

-- `scope_type` and `scope_key`.
pub data AbuseScope : Type 0 where
  system_scope : AbuseScope
  identity_scope : (external_account_id : String) → AbuseScope
  user_scope : (user_id : ℕ) → AbuseScope

-- A row of `channel_abuse_windows`.
pub record AbuseWindow : Type 0 where
  pub scope : AbuseScope
  pub window_started_at : ℕ
  pub event_count : ℕ

-- A row of `normalized_channel_commands`.
pub record NormalizedCommand : Type 0 where
  pub inbound_event_id : InboundEventId
  pub owner_user_id : ℕ
  pub ledger_id : ℕ
  pub channel_identity_id : ℕ
  pub external_message_id : String
  pub command_text : String
  pub occurred_at : ℕ
  pub correlation_id : CorrelationId

-- A row of `outbound_channel_messages`, as it is inserted.
pub record EventReply : Type 0 where
  pub id : OutboundChannelMessageId
  pub inbound_event_id : InboundEventId
  pub owner_user_id : Option ℕ
  pub ledger_id : Option ℕ
  pub channel_identity_id : Option ℕ
  pub external_conversation_id : String
  pub intent : TelegramReplyIntent
  pub correlation_id : CorrelationId

-- A row of `outbox_messages` of kind `channel.event.received.v1`.
pub record EventJob : Type 0 where
  pub id : OutboxMessageId
  pub inbound_event_id : InboundEventId

-- A row of `outbox_messages` of kind `channel.reply.requested.v1`.
pub record EventReplyJob : Type 0 where
  pub id : OutboxMessageId
  pub inbound_event_id : InboundEventId
  pub owner_user_id : Option ℕ
  pub ledger_id : Option ℕ
  pub outbound_message_id : OutboundChannelMessageId
  pub correlation_id : CorrelationId

pub record EventTables : Type 0 where
  pub events : List InboundEvent
  pub windows : List AbuseWindow
  pub commands : List NormalizedCommand
  pub replies : List EventReply
  pub event_jobs : List EventJob
  pub reply_jobs : List EventReplyJob

abbrev pub event_id : InboundEvent → InboundEventId
event_id e = e.id

abbrev pub event_job_id : EventJob → OutboxMessageId
event_job_id j = j.id

abbrev pub event_reply_id : EventReply → OutboundChannelMessageId
event_reply_id r = r.id

abbrev pub is_command_of : InboundEventId → NormalizedCommand → Bool
is_command_of k c = c.inbound_event_id == k

abbrev pub is_reply_of : InboundEventId → EventReply → Bool
is_reply_of k r = r.inbound_event_id == k

abbrev pub is_reply_job_of : InboundEventId → EventReplyJob → Bool
is_reply_job_of k j = j.inbound_event_id == k

abbrev pub reply_job_id : EventReplyJob → OutboxMessageId
reply_job_id j = j.id
