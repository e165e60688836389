-- ===== src/Delivery/Store/Complete.antt =====
-- `completeAttempt` of packages/adapters/src/postgres/telegram-delivery-store.ts.
use xpens_go.Prelude.{Bool, Option, String, holds, if◌then◌else◌, none, refl, some, ℕ, ◌&&◌, ◌==◌}
use xpens_go.Delivery.Rows.{
  AttemptStatus, DeliveryAttempt, DeliveryTables, OutboundMessage, accepted, attempt_id, message_id,
  outcome_unknown, pending, provider_accepted, terminal_failed, terminal_failure, transient_failed,
  unknown,
}
use xpens_go.Delivery.Store.Claim.{is_attempting, is_delivering}
use xpens_go.Delivery.Types.{
  ChannelDeliveryAttemptId, DeliveryError, OutboundChannelMessageId, TelegramProviderAttemptOutcome,
  complete_telegram_reply_attempt, outcome_accepted, outcome_ambiguous, outcome_terminal,
  outcome_transient, persistence_unavailable,
}
use xpens_go.Effect.{Effect, err, ok}
use xpens_go.Table.{KeepsKey, select, update}

abbrev pub provider_message_of : TelegramProviderAttemptOutcome → Option String
provider_message_of (outcome_accepted id) = some id
provider_message_of _ = none

abbrev pub error_code_of : TelegramProviderAttemptOutcome → Option String
error_code_of (outcome_accepted id) = none
error_code_of (outcome_transient code) = some code
error_code_of (outcome_terminal code) = some code
error_code_of (outcome_ambiguous code) = some code

abbrev pub attempt_status_of : TelegramProviderAttemptOutcome → AttemptStatus
attempt_status_of (outcome_accepted id) = accepted
attempt_status_of (outcome_transient code) = transient_failed
attempt_status_of (outcome_terminal code) = terminal_failed
attempt_status_of (outcome_ambiguous code) = unknown

unfoldable pub close_attempt :
    ℕ
    → OutboundChannelMessageId
    → TelegramProviderAttemptOutcome
    → DeliveryAttempt
    → DeliveryAttempt
close_attempt now message outcome a =
    if a.outbound_message_id == message && is_attempting a.status
    then record a {
      status = attempt_status_of outcome;
      provider_message_id = provider_message_of outcome;
      error_code = error_code_of outcome;
      completed_at = some now;
    }
    else a

-- The update of the message for each outcome.
unfoldable pub close_message :
    ℕ → TelegramProviderAttemptOutcome → OutboundMessage → OutboundMessage
close_message now (outcome_transient code) m = record m {
  status = pending;
  delivery_claim_id = none;
  delivery_claimed_until = none;
  last_error_code = some code;
}
close_message now (outcome_accepted id) m = record m {
  status = provider_accepted;
  delivery_claim_id = none;
  delivery_claimed_until = none;
  provider_message_id = some id;
  last_error_code = none;
  provider_accepted_at = some now;
  terminal_at = none;
}
close_message now (outcome_terminal code) m = record m {
  status = terminal_failure;
  delivery_claim_id = none;
  delivery_claimed_until = none;
  provider_message_id = none;
  last_error_code = some code;
  provider_accepted_at = none;
  terminal_at = some now;
}
close_message now (outcome_ambiguous code) m = record m {
  status = outcome_unknown;
  delivery_claim_id = none;
  delivery_claimed_until = none;
  provider_message_id = none;
  last_error_code = some code;
  provider_accepted_at = none;
  terminal_at = some now;
}

-- WHERE status = 'delivering' AND delivery_claim_id = …
abbrev pub owns_attempt : ChannelDeliveryAttemptId → OutboundMessage → Bool
owns_attempt attempt m = is_delivering m.status && holds m.delivery_claim_id attempt

unfoldable pub complete_attempt :
    ℕ
    → ChannelDeliveryAttemptId
    → OutboundChannelMessageId
    → TelegramProviderAttemptOutcome
    → Effect DeliveryTables DeliveryError (Unit {0})
complete_attempt now attempt message outcome t = elim (select message_id message t.messages) [
  | none ↦ (err (persistence_unavailable complete_telegram_reply_attempt), t)
  | some m ↦
      if owns_attempt attempt m
      then (
        ok tt,
        record t {
          messages = update message_id message (close_message now outcome) t.messages;
          attempts = update attempt_id attempt (close_attempt now message outcome) t.attempts;
        },
      )
      else (err (persistence_unavailable complete_telegram_reply_attempt), t)
]

pub close_message-KeepsKey :
    (now : ℕ) (outcome : TelegramProviderAttemptOutcome)
    → KeepsKey message_id (close_message now outcome)
unfolding close_message
close_message-KeepsKey now (outcome_accepted id) m = refl
close_message-KeepsKey now (outcome_transient code) m = refl
close_message-KeepsKey now (outcome_terminal code) m = refl
close_message-KeepsKey now (outcome_ambiguous code) m = refl
