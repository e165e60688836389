-- ===== src/Delivery/Store/Claim.antt =====
-- `claim` of packages/adapters/src/postgres/telegram-delivery-store.ts. `attempt` is what
-- gen_random_uuid() draws; an identifier or an attempt number that is taken makes the INSERT fail,
-- and the transaction is undone.
use xpens_go.Prelude.{
  Bool, List, Option, [], false, if◌then◌else◌, leb, ltb, max, none, some, true, ℕ, ◌&&◌, ◌*◌, ◌+◌,
  ◌-◌, ◌/◌, ◌==◌, ◌||◌, ◌∷◌,
}
use xpens_go.Delivery.Rows.{
  AttemptStatus, DeliveryAttempt, DeliveryStatus, DeliveryTables, OutboundMessage, attempt_id,
  attempting, delivering, message_id, outcome_unknown, pending, provider_accepted, reply_of,
  terminal_failure, unknown,
}
use xpens_go.Delivery.Types.{
  ChannelDeliveryAttemptId, ClaimTelegramReplyOutcome, DeliveryError, OutboundChannelMessageId,
  TelegramDeliveryPolicy, claim_telegram_reply, claimed, deferred, persistence_unavailable,
  reply_missing, terminal,
}
use xpens_go.Effect.{Effect, err, ok}
use xpens_go.Outbox.Types.{OutboxMessageId}
use xpens_go.Table.{update}

abbrev pub is_final : DeliveryStatus → Bool
is_final provider_accepted = true
is_final terminal_failure = true
is_final outcome_unknown = true
is_final pending = false
is_final delivering = false

abbrev pub is_delivering : DeliveryStatus → Bool
is_delivering delivering = true
is_delivering _ = false

abbrev pub is_attempting : AttemptStatus → Bool
is_attempting attempting = true
is_attempting _ = false

-- `Math.max(1, Math.ceil((until - clock) / 1_000))`, for a lease that has not ended.
unfoldable pub retry_after_seconds : ℕ → ℕ → ℕ
retry_after_seconds until clock = max 1 ((until - clock + 999) / 1000)

abbrev pub is_held : Option ℕ → ℕ → Bool
is_held none clock = false
is_held (some until) clock = ltb clock until

abbrev pub seconds_left : Option ℕ → ℕ → ℕ
seconds_left none clock = 0
seconds_left (some until) clock = retry_after_seconds until clock

abbrev pub fail_attempt : ℕ → DeliveryAttempt → DeliveryAttempt
fail_attempt now a =
    if is_attempting a.status
    then record a {
      status = unknown;
      error_code = some "attempt_lease_expired";
      completed_at = some now;
    }
    else a

-- The two updates for a delivery whose lease has ended: nobody knows what the provider did.
abbrev pub expire_attempt :
    ℕ → Option ChannelDeliveryAttemptId → List DeliveryAttempt → List DeliveryAttempt
expire_attempt now none attempts = attempts
expire_attempt now (some id) attempts = update attempt_id id (fail_attempt now) attempts

abbrev pub expire_message : ℕ → OutboundMessage → OutboundMessage
expire_message now m = record m {
  status = outcome_unknown;
  delivery_claim_id = none;
  delivery_claimed_until = none;
  last_error_code = some "attempt_lease_expired";
  terminal_at = some now;
}

abbrev pub exhaust_message : ℕ → OutboundMessage → OutboundMessage
exhaust_message now m = record m {
  status = terminal_failure;
  last_error_code = some "attempts_exhausted";
  terminal_at = some now;
}

abbrev pub start_delivery :
    ChannelDeliveryAttemptId → ℕ → TelegramDeliveryPolicy → OutboundMessage → OutboundMessage
start_delivery attempt now policy m = record m {
  status = delivering;
  delivery_attempts = m.delivery_attempts + 1;
  delivery_claim_id = some attempt;
  delivery_claimed_until = some (now + policy.lease_seconds * 1000);
  last_error_code = none;
}

-- The primary key of `channel_delivery_attempts`, and its UNIQUE (outbound_message_id,
-- attempt_number).
abbrev pub is_taken :
    ChannelDeliveryAttemptId → OutboundChannelMessageId → ℕ → List DeliveryAttempt → Bool
is_taken attempt message number [] = false
is_taken attempt message number (a ∷ as') =
    (a.id == attempt || (a.outbound_message_id == message && a.attempt_number == number))
    || is_taken attempt message number as'

abbrev pub new_attempt : ChannelDeliveryAttemptId → OutboundChannelMessageId → ℕ → DeliveryAttempt
new_attempt attempt message number = record {
  id = attempt;
  outbound_message_id = message;
  attempt_number = number;
  status = attempting;
  provider_message_id = none;
  error_code = none;
  completed_at = none;
}

-- The body of the claiming transaction once its row is read.
unfoldable pub claim_row :
    ChannelDeliveryAttemptId
    → ℕ
    → ℕ
    → TelegramDeliveryPolicy
    → OutboundMessage
    → Effect DeliveryTables DeliveryError ClaimTelegramReplyOutcome
claim_row attempt clock now policy m t =
    if is_final m.status
    then (ok terminal, t)
    else if is_delivering m.status
    then (if is_held m.delivery_claimed_until clock
        then (ok (deferred (seconds_left m.delivery_claimed_until clock)), t)
        else (
          ok terminal,
          record t {
            messages = update message_id m.id (expire_message now) t.messages;
            attempts = expire_attempt now m.delivery_claim_id t.attempts;
          },
        ))
    else if leb policy.maximum_attempts m.delivery_attempts
    then (
      ok terminal,
      record t { messages = update message_id m.id (exhaust_message now) t.messages },
    )
    else if is_taken attempt m.id (m.delivery_attempts + 1) t.attempts
    then (err (persistence_unavailable claim_telegram_reply), t)
    else (
      ok (
          claimed (record {
            attempt_id = attempt;
            outbound_message_id = m.id;
            external_conversation_id = m.external_conversation_id;
            intent = m.intent;
          })),
      record t {
        messages = update message_id m.id (start_delivery attempt now policy) t.messages;
        attempts = new_attempt attempt m.id (m.delivery_attempts + 1) ∷ t.attempts;
      },
    )

unfoldable pub claim :
    ChannelDeliveryAttemptId
    → ℕ
    → ℕ
    → OutboxMessageId
    → TelegramDeliveryPolicy
    → Effect DeliveryTables DeliveryError ClaimTelegramReplyOutcome
claim attempt clock now outbox policy t = elim (reply_of t outbox) [
  | none ↦ (ok reply_missing, t)
  | some m ↦ claim_row attempt clock now policy m t
]
