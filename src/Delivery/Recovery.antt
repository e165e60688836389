-- ===== src/Delivery/Recovery.antt =====
-- `recoverTelegramDelivery` of packages/domain/src/channel/recover-telegram-delivery.ts, over the
-- services that it is given.
pub mod Resume
use xpens_go.Prelude.{String, ℕ}
use xpens_go.Delivery.Types.{
  MarkOutcome, NotRecoverableReason, PrepareOutcome, RecoverTelegramDeliveryInput,
  already_published, default_telegram_delivery_policy, newly_published, no_recovery,
  not_recoverable, prepared, published, ready,
}
use xpens_go.Effect.{Effect, Result, err, fail, ok, succeed, ◌>>=◌}
use xpens_go.Outbox.Dispatch.{OutboxPublication}
use xpens_go.Outbox.Types.{OutboxPublicationError}

-- The failures of its three steps: the store, the Queue, and a preparation that disappeared.
pub data RecoveryError : Type 0 where
  recovery_unavailable : RecoveryError
  unpublished : OutboxPublicationError → RecoveryError
  recovery_state_conflict : String → RecoveryError

pub data RecoveredPublication : Type 0 where
  published_now published_before : RecoveredPublication

pub data RecoverOutcome : Type 0 where
  recovered : RecoveredPublication → RecoverOutcome
  refused : NotRecoverableReason → RecoverOutcome

pub record TelegramDeliveryRecoveryStore (S : Type 0) : Type 0 where
  pub prepare : RecoverTelegramDeliveryInput → ℕ → Effect S RecoveryError PrepareOutcome
  pub mark_published : String → Effect S RecoveryError MarkOutcome

abbrev pub published_or :
    {E A S : Type 0} → (E → RecoveryError) → Result E A × S → Result RecoveryError A × S
published_or f (ok a, s) = (ok a, s)
published_or f (err e, s) = (err (f e), s)

module _ {S : Type 0} (store : TelegramDeliveryRecoveryStore S)
    (publication : OutboxPublication S) where
  unfoldable pub confirm : String → MarkOutcome → Effect S RecoveryError RecoverOutcome
  confirm id newly_published = succeed (recovered published_now)
  confirm id already_published = succeed (recovered published_now)
  confirm id no_recovery = fail (recovery_state_conflict id)

  unfoldable pub publish_prepared :
      RecoverTelegramDeliveryInput → PrepareOutcome → Effect S RecoveryError RecoverOutcome
  publish_prepared input (not_recoverable reason) = succeed (refused reason)
  publish_prepared input (ready published outbox correlation) = succeed (recovered published_before)
  publish_prepared input (ready prepared outbox correlation) = do
    sent ← λ s. published_or unpublished (publication.publish outbox correlation s)
    marked ← store.mark_published input.recovery_id
    confirm input.recovery_id marked

  unfoldable pub recover_telegram_delivery :
      RecoverTelegramDeliveryInput → Effect S RecoveryError RecoverOutcome
  recover_telegram_delivery input = do
    outcome ← store.prepare input default_telegram_delivery_policy.maximum_attempts
    publish_prepared input outcome
