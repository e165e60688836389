-- ===== src/Delivery/Checks.antt =====
-- The CHECK constraints of the delivery tables, from packages/adapters/src/postgres/migrations/
-- 0009-telegram-processing.ts and 0010-telegram-delivery-recovery.ts, and the messages' primary key.
-- A statement that breaks one fails in PostgreSQL.
pub mod Kept
pub mod Operations
use xpens_go.Prelude.{All, Bool, if◌then◌else◌, is_none, not, true, ◌&&◌, ◌||◌, ◌≡◌}
use xpens_go.Delivery.RecoveryStore.{is_prepared}
use xpens_go.Delivery.Rows.{
  DeliveryAttempt, DeliveryRecovery, DeliveryStatus, DeliveryTables, OutboundMessage, delivering,
  message_id, outcome_unknown, pending, provider_accepted, terminal_failure,
}
use xpens_go.Delivery.Store.Claim.{is_attempting, is_delivering}
use xpens_go.Table.{HasUniqueKeys}

-- outbound_channel_messages_claim_complete
abbrev pub claim_complete : OutboundMessage → Bool
claim_complete m =
    (is_none m.delivery_claim_id && is_none m.delivery_claimed_until)
    || (is_delivering m.status
        && not (is_none m.delivery_claim_id)
        && not (is_none m.delivery_claimed_until))

-- One line of outbound_channel_messages_terminal_state_complete for each status.
abbrev pub terminal_state_of : DeliveryStatus → OutboundMessage → Bool
terminal_state_of pending m = is_none m.provider_accepted_at && is_none m.terminal_at
terminal_state_of delivering m = is_none m.provider_accepted_at && is_none m.terminal_at
terminal_state_of provider_accepted m =
    not (is_none m.provider_accepted_at)
    && is_none m.terminal_at
    && not (is_none m.provider_message_id)
terminal_state_of terminal_failure m = is_none m.provider_accepted_at && not (is_none m.terminal_at)
terminal_state_of outcome_unknown m = is_none m.provider_accepted_at && not (is_none m.terminal_at)

-- outbound_channel_messages_terminal_state_complete
abbrev pub terminal_state_complete : OutboundMessage → Bool
terminal_state_complete m = terminal_state_of m.status m

-- channel_delivery_attempts_completion_state
abbrev pub completion_state : DeliveryAttempt → Bool
completion_state a =
    if is_attempting a.status then is_none a.completed_at else not (is_none a.completed_at)

-- telegram_delivery_recoveries_publication_state_complete
abbrev pub publication_state_complete : DeliveryRecovery → Bool
publication_state_complete r =
    if is_prepared r.publication_status
    then is_none r.published_at
    else not (is_none r.published_at)

abbrev pub IsWhole : OutboundMessage → Type 0
IsWhole m = (claim_complete m ≡ true) × (terminal_state_complete m ≡ true)

abbrev pub IsCompleted : DeliveryAttempt → Type 0
IsCompleted a = completion_state a ≡ true

abbrev pub IsRecorded : DeliveryRecovery → Type 0
IsRecorded r = publication_state_complete r ≡ true

pub record MeetsDeliveryChecks (t : DeliveryTables) : Type 0 where
  pub messages : All IsWhole t.messages
  pub attempts : All IsCompleted t.attempts
  pub recoveries : All IsRecorded t.recoveries
  pub message_keys : HasUniqueKeys message_id t.messages
