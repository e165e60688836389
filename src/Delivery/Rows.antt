-- ===== src/Delivery/Rows.antt =====
-- The tables of Telegram delivery, from packages/adapters/src/postgres/migrations/
-- 0009-telegram-processing.ts and 0010-telegram-delivery-recovery.ts.
use xpens_go.Prelude.{
  List, Option, Option-cases, String, arith, inl, inr, none, some, subst, sym, ℕ, ◌≡◌,
}
use xpens_go.Delivery.Types.{
  ChannelDeliveryAttemptId, OutboundChannelMessageId, PublicationStatus,
  TelegramDeliveryRecoveryReason, TelegramReplyIntent,
}
use xpens_go.Outbox.Types.{CorrelationId, OutboxMessageId}
use xpens_go.Table.{select}
use xpens_go.Table.Laws.{key-select}

pub data DeliveryStatus : Type 0 where
  pending delivering provider_accepted terminal_failure outcome_unknown : DeliveryStatus

pub data AttemptStatus : Type 0 where
  attempting accepted transient_failed terminal_failed unknown : AttemptStatus

-- A row of `outbound_channel_messages`.
pub record OutboundMessage : Type 0 where
  pub id : OutboundChannelMessageId
  pub external_conversation_id : String
  pub intent : TelegramReplyIntent
  pub correlation_id : CorrelationId
  pub status : DeliveryStatus
  pub delivery_attempts : ℕ
  pub delivery_claim_id : Option ChannelDeliveryAttemptId
  pub delivery_claimed_until : Option ℕ
  pub provider_message_id : Option String
  pub last_error_code : Option String
  pub provider_accepted_at : Option ℕ
  pub terminal_at : Option ℕ

-- A row of `channel_delivery_attempts`.
pub record DeliveryAttempt : Type 0 where
  pub id : ChannelDeliveryAttemptId
  pub outbound_message_id : OutboundChannelMessageId
  pub attempt_number : ℕ
  pub status : AttemptStatus
  pub provider_message_id : Option String
  pub error_code : Option String
  pub completed_at : Option ℕ

-- A row of `outbox_messages` of kind `channel.reply.requested.v1`.
pub record ReplyJob : Type 0 where
  pub id : OutboxMessageId
  pub outbound_message_id : OutboundChannelMessageId

-- A row of `telegram_delivery_recoveries`.
pub record DeliveryRecovery : Type 0 where
  pub id : String
  pub outbound_message_id : OutboundChannelMessageId
  pub outbox_message_id : OutboxMessageId
  pub correlation_id : CorrelationId
  pub expected_error_code : String
  pub reason : TelegramDeliveryRecoveryReason
  pub publication_status : PublicationStatus
  pub published_at : Option ℕ

pub record DeliveryTables : Type 0 where
  pub messages : List OutboundMessage
  pub attempts : List DeliveryAttempt
  pub jobs : List ReplyJob
  pub recoveries : List DeliveryRecovery

abbrev pub message_id : OutboundMessage → OutboundChannelMessageId
message_id m = m.id

abbrev pub attempt_id : DeliveryAttempt → ChannelDeliveryAttemptId
attempt_id a = a.id

abbrev pub job_id : ReplyJob → OutboxMessageId
job_id j = j.id

-- `outbox_messages` joined to the message that the job is for.
unfoldable pub reply_of : DeliveryTables → OutboxMessageId → Option OutboundMessage
reply_of t id = elim (select job_id id t.jobs) [
  | none ↦ none
  | some job ↦ select message_id job.outbound_message_id t.messages
]

-- The row that a job is joined to is the one that its key selects.
pub reply_of-select :
    (t : DeliveryTables) (id : OutboxMessageId) (m : OutboundMessage)
    → reply_of t id ≡ some m
    → select message_id m.id t.messages ≡ some m
unfolding reply_of
reply_of-select t id m e = elim (Option-cases (select job_id id t.jobs)) [
  | inl absent ↦ absurd (ground (arith, absent))
  | inr (job, found) ↦
      let joined : select message_id job.outbound_message_id t.messages ≡ some m =
        ground (arith, found) in
      subst (λ x. select message_id x t.messages ≡ some m)
        (sym (key-select message_id job.outbound_message_id t.messages m joined)) joined
]
