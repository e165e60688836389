-- ===== src/Events/Accept.antt =====
-- Acceptance of an authenticated Telegram update: packages/domain/src/channel/
-- accept-telegram-event.ts, over packages/adapters/src/postgres/telegram-ingress-store.ts. The digest
-- of a token is LinkChallengeCrypto's, and a parameter. The idempotency key is "telegram:update:"
-- before the update's identifier, so that its UNIQUE says what that of the identifier says.
pub mod Once
use xpens_go.Prelude.{
  Bool, List, String, [], contains, false, if◌then◌else◌, map, none, some, str_eq, ℕ, ◌||◌, ◌∷◌,
}
use xpens_go.Delivery.Types.{ChallengePurpose}
use xpens_go.Effect.{Effect, Result, err, ok}
use xpens_go.Events.Rows.{
  EventPayload, EventTables, InboundEvent, awaiting, event_id, event_job_id, reply_job_id,
}
use xpens_go.Events.Types.{
  EventContent, InboundEventId, invalid_event_command, link_command, text_content, unlink_command,
}
use xpens_go.Outbox.Types.{CorrelationId, OutboxMessageId}
use xpens_go.Table.{update}

-- `VerifiedTelegramContent`.
pub data VerifiedContent : Type 0 where
  verified_text : (text : String) → VerifiedContent
  verified_link verified_unlink : (token : String) → VerifiedContent
  verified_invalid : (command : ChallengePurpose) → VerifiedContent

-- `VerifiedTelegramUpdate`.
pub record VerifiedUpdate : Type 0 where
  pub update_id : String
  pub external_account_id : String
  pub external_conversation_id : String
  pub external_message_id : String
  pub occurred_at_millis : ℕ
  pub content : VerifiedContent

pub data AcceptError : Type 0 where
  ingress_unavailable crypto_unavailable : AcceptError

pub data AcceptOutcome : Type 0 where
  event_accepted : InboundEventId → OutboxMessageId → AcceptOutcome
  update_duplicate : AcceptOutcome

-- What gen_random_uuid() draws for the event and for its job.
pub record IngressIds : Type 0 where
  pub event : InboundEventId
  pub job : OutboxMessageId

abbrev pub as_content :
    (String → EventContent) → Result AcceptError String → Result AcceptError EventContent
as_content make (err e) = err e
as_content make (ok digest) = ok (make digest)

-- `minimizeContent`: a token never reaches the table, only its digest does.
abbrev pub minimize_content :
    (String → Result AcceptError String) → VerifiedContent → Result AcceptError EventContent
minimize_content digest (verified_text text) = ok (text_content text)
minimize_content digest (verified_invalid command) = ok (invalid_event_command command)
minimize_content digest (verified_link token) = as_content link_command (digest token)
minimize_content digest (verified_unlink token) = as_content unlink_command (digest token)

abbrev pub persisted_event : VerifiedUpdate → EventContent → EventPayload
persisted_event u content = record {
  external_account_id = u.external_account_id;
  external_conversation_id = u.external_conversation_id;
  external_message_id = u.external_message_id;
  occurred_at_millis = u.occurred_at_millis;
  content = content;
}

abbrev pub new_event : InboundEventId → String → CorrelationId → EventPayload → InboundEvent
new_event id update correlation p = record {
  id = id;
  external_event_id = update;
  correlation_id = correlation;
  normalized_payload = some p;
  processing_status = awaiting;
  processing_outcome = none;
  processed_at = none;
  processing_claim_id = none;
  processing_claimed_until = none;
  processing_attempts = 0;
  abuse_checked_at = none;
  abuse_allowed = none;
  user_abuse_checked_at = none;
  user_abuse_allowed = none;
  owner_user_id = none;
  ledger_id = none;
}

-- UNIQUE (channel, external_event_id), of the one channel.
unfoldable pub has_update : String → List InboundEvent → Bool
has_update update [] = false
has_update update (e ∷ es) = str_eq e.external_event_id update || has_update update es

abbrev pub are_taken : IngressIds → EventTables → Bool
are_taken ids t =
    contains (map event_id t.events) ids.event
    || contains (map event_job_id t.event_jobs) ids.job
    || contains (map reply_job_id t.reply_jobs) ids.job

-- `persist` of the store: one transaction inserts the event and its job.
unfoldable pub persist :
    IngressIds
    → CorrelationId
    → String
    → EventPayload
    → Effect EventTables AcceptError AcceptOutcome
persist ids correlation update p t =
    if has_update update t.events
    then (ok update_duplicate, t)
    else if are_taken ids t
    then (err ingress_unavailable, t)
    else (
      ok (event_accepted ids.event ids.job),
      record t {
        events = new_event ids.event update correlation p ∷ t.events;
        event_jobs = record { id = ids.job; inbound_event_id = ids.event } ∷ t.event_jobs;
      },
    )

abbrev pub persisted_with :
    IngressIds
    → CorrelationId
    → VerifiedUpdate
    → Result AcceptError EventContent
    → Effect EventTables AcceptError AcceptOutcome
persisted_with ids correlation u (err e) t = (err e, t)
persisted_with ids correlation u (ok content) t =
    persist ids correlation u.update_id (persisted_event u content) t

unfoldable pub accept_telegram_event :
    (String → Result AcceptError String)
    → IngressIds
    → CorrelationId
    → VerifiedUpdate
    → Effect EventTables AcceptError AcceptOutcome
accept_telegram_event digest ids correlation u =
    persisted_with ids correlation u (minimize_content digest u.content)
