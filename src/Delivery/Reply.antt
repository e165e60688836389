-- ===== src/Delivery/Reply.antt =====
-- `deliverTelegramReply` of packages/domain/src/channel/deliver-telegram-reply.ts, over the services
-- that it is given.
use xpens_go.Prelude.{String}
use xpens_go.Delivery.Types.{
  ChannelDeliveryAttemptId, ClaimTelegramReplyOutcome, DeliverTelegramReplyOutcome, DeliveryError,
  OutboundChannelMessageId, TelegramDeliveryPolicy, TelegramProviderAttemptOutcome,
  TelegramProviderError, TelegramReplyClaimed, TelegramReplyIntent, claimed,
  default_telegram_delivery_policy, deferred, delivery_deferred, outcome_accepted,
  outcome_ambiguous, outcome_terminal, outcome_transient, provider_outcome_unknown,
  provider_terminal_failure, provider_transient_failure, reply_accepted, reply_missing,
  reply_not_found, reply_terminal, reply_unknown, terminal,
}
use xpens_go.Effect.{Effect, Result, either, err, fail, ok, succeed, ◌>>=◌, ◌>>◌}
use xpens_go.Outbox.Types.{OutboxMessageId}

pub record TelegramDeliveryStore (S : Type 0) : Type 0 where
  pub claim :
      OutboxMessageId → TelegramDeliveryPolicy → Effect S DeliveryError ClaimTelegramReplyOutcome
  pub complete_attempt :
      ChannelDeliveryAttemptId
      → OutboundChannelMessageId
      → TelegramProviderAttemptOutcome
      → Effect S DeliveryError (Unit {0})

-- `send` answers with the provider's message identifier.
pub record TelegramBotApi (S : Type 0) : Type 0 where
  pub ensure_available : Effect S TelegramProviderError (Unit {0})
  pub send : String → TelegramReplyIntent → Effect S TelegramProviderError String

module _ {S : Type 0} (store : TelegramDeliveryStore S) (provider : TelegramBotApi S) where
  -- What is stored and returned after the provider's answer.
  unfoldable pub conclude :
      TelegramReplyClaimed
      → Result TelegramProviderError String
      → Effect S DeliveryError DeliverTelegramReplyOutcome
  conclude claim (ok id) =
      store.complete_attempt claim.attempt_id claim.outbound_message_id (outcome_accepted id)
      >> succeed reply_accepted
  conclude claim (err (provider_transient_failure code)) =
      store.complete_attempt claim.attempt_id claim.outbound_message_id (outcome_transient code)
      >> fail (delivery_deferred 30)
  conclude claim (err (provider_terminal_failure code)) =
      store.complete_attempt claim.attempt_id claim.outbound_message_id (outcome_terminal code)
      >> succeed reply_terminal
  conclude claim (err (provider_outcome_unknown code)) =
      store.complete_attempt claim.attempt_id claim.outbound_message_id (outcome_ambiguous code)
      >> succeed reply_unknown

  unfoldable pub attempt_delivery :
      ClaimTelegramReplyOutcome → Effect S DeliveryError DeliverTelegramReplyOutcome
  attempt_delivery reply_missing = succeed reply_not_found
  attempt_delivery terminal = succeed reply_terminal
  attempt_delivery (deferred seconds) = fail (delivery_deferred seconds)
  attempt_delivery (claimed claim) = do
    sent ← either (provider.send claim.external_conversation_id claim.intent)
    conclude claim sent

  unfoldable pub deliver_when_available :
      OutboxMessageId
      → Result TelegramProviderError (Unit {0})
      → Effect S DeliveryError DeliverTelegramReplyOutcome
  deliver_when_available outbox (err _) = fail (delivery_deferred 60)
  deliver_when_available outbox (ok _) = do
    claim ← store.claim outbox default_telegram_delivery_policy
    attempt_delivery claim

  unfoldable pub deliver_telegram_reply :
      OutboxMessageId → Effect S DeliveryError DeliverTelegramReplyOutcome
  deliver_telegram_reply outbox = do
    availability ← either provider.ensure_available
    deliver_when_available outbox availability
