-- ===== src/Events/Store/Complete.antt =====
-- `complete` and `release` of packages/adapters/src/postgres/telegram-event-processing-store.ts.
-- `ids` is what gen_random_uuid() draws for the reply and for its job; an identifier that is taken,
-- and a second command, reply or job of one event, makes an INSERT fail, and the transaction is
-- undone.
use xpens_go.Prelude.{
  Bool, List, Option, [], contains, count, false, holds, if◌then◌else◌, ltb, map, none, some, ℕ,
  ◌&&◌, ◌++◌, ◌||◌, ◌∷◌,
}
use xpens_go.Delivery.Types.{OutboundChannelMessageId, TelegramReplyIntent}
use xpens_go.Effect.{Effect, err, ok}
use xpens_go.Events.Rows.{
  EventPayload, EventReply, EventReplyJob, EventTables, InboundEvent, NormalizedCommand,
  ProcessingOutcome, awaiting, event_id, event_job_id, event_processed, event_reply_id,
  is_command_of, is_reply_job_of, is_reply_of, normalized_text_accepted, reply_job_id,
  scoped_reply_created, unscoped_reply_created,
}
use xpens_go.Events.Store.Claim.{claim, is_in_process}
use xpens_go.Events.Types.{
  Actor, EventCompletion, InboundEventId, ProcessError, ProcessingClaimId, linked_text_accepted,
  processing_unavailable, scoped_reply, unscoped_reply,
}
use xpens_go.Outbox.Types.{CorrelationId, OutboxMessageId}
use xpens_go.Table.{select, update}
use mathlib.Core.Option

pub record DrawnIds : Type 0 where
  pub reply_id : OutboundChannelMessageId
  pub job_id : OutboxMessageId

-- `completion.actor`, of which an unscoped reply has none.
abbrev pub completion_actor : EventCompletion → Option Actor
completion_actor (unscoped_reply intent) = none
completion_actor (scoped_reply actor intent) = some actor
completion_actor (linked_text_accepted actor text intent) = some actor

abbrev pub completion_outcome : EventCompletion → ProcessingOutcome
completion_outcome (unscoped_reply intent) = unscoped_reply_created
completion_outcome (scoped_reply actor intent) = scoped_reply_created
completion_outcome (linked_text_accepted actor text intent) = normalized_text_accepted

abbrev pub completion_intent : EventCompletion → TelegramReplyIntent
completion_intent (unscoped_reply intent) = intent
completion_intent (scoped_reply actor intent) = intent
completion_intent (linked_text_accepted actor text intent) = intent

abbrev pub user_of : Actor → ℕ
user_of a = a.user_id

abbrev pub ledger_of : Actor → ℕ
ledger_of a = a.ledger_id

abbrev pub identity_of : Actor → ℕ
identity_of a = a.channel_identity_id

abbrev pub owns_event : ProcessingClaimId → InboundEvent → Bool
owns_event claim e = is_in_process e.processing_status && holds e.processing_claim_id claim

abbrev pub process_event : ℕ → EventCompletion → InboundEvent → InboundEvent
process_event now completion e = record e {
  owner_user_id = Option.map user_of (completion_actor completion);
  ledger_id = Option.map ledger_of (completion_actor completion);
  processing_status = event_processed;
  processing_outcome = some (completion_outcome completion);
  processed_at = some now;
  processing_claim_id = none;
  processing_claimed_until = none;
}

-- The commands that a completion inserts.
abbrev pub new_commands :
    InboundEventId → EventPayload → CorrelationId → EventCompletion → List NormalizedCommand
new_commands k p correlation (unscoped_reply intent) = []
new_commands k p correlation (scoped_reply actor intent) = []
new_commands k p correlation (linked_text_accepted actor text intent) =
    record {
      inbound_event_id = k;
      owner_user_id = actor.user_id;
      ledger_id = actor.ledger_id;
      channel_identity_id = actor.channel_identity_id;
      external_message_id = p.external_message_id;
      command_text = text;
      occurred_at = p.occurred_at_millis;
      correlation_id = correlation;
    }
    ∷ []

abbrev pub new_reply :
    DrawnIds → InboundEventId → EventPayload → CorrelationId → EventCompletion → EventReply
new_reply ids k p correlation completion = record {
  id = ids.reply_id;
  inbound_event_id = k;
  owner_user_id = Option.map user_of (completion_actor completion);
  ledger_id = Option.map ledger_of (completion_actor completion);
  channel_identity_id = Option.map identity_of (completion_actor completion);
  external_conversation_id = p.external_conversation_id;
  intent = completion_intent completion;
  correlation_id = correlation;
}

abbrev pub new_reply_job :
    DrawnIds → InboundEventId → CorrelationId → EventCompletion → EventReplyJob
new_reply_job ids k correlation completion = record {
  id = ids.job_id;
  inbound_event_id = k;
  owner_user_id = Option.map user_of (completion_actor completion);
  ledger_id = Option.map ledger_of (completion_actor completion);
  outbound_message_id = ids.reply_id;
  correlation_id = correlation;
}

-- The unique constraints of the three tables that are inserted into.
abbrev pub has_command : InboundEventId → List NormalizedCommand → List NormalizedCommand → Bool
has_command k [] commands = false
has_command k (c ∷ cs) commands = ltb 0 (count (is_command_of k) commands)

unfoldable pub is_refused : DrawnIds → InboundEventId → List NormalizedCommand → EventTables → Bool
is_refused ids k inserted t =
    has_command k inserted t.commands
    || ltb 0 (count (is_reply_of k) t.replies)
    || contains (map event_reply_id t.replies) ids.reply_id
    || ltb 0 (count (is_reply_job_of k) t.reply_jobs)
    || contains (map event_job_id t.event_jobs) ids.job_id
    || contains (map reply_job_id t.reply_jobs) ids.job_id

-- The body of the completing transaction once its row is read.
unfoldable pub complete_event :
    ℕ
    → DrawnIds
    → CorrelationId
    → EventCompletion
    → InboundEvent
    → EventPayload
    → Effect EventTables ProcessError OutboundChannelMessageId
complete_event now ids correlation completion e p t =
    let inserted = new_commands e.id p correlation completion in
    if is_refused ids e.id inserted t then (err processing_unavailable, t) else (
      ok ids.reply_id,
      record t {
        events = update event_id e.id (process_event now completion) t.events;
        commands = inserted ++ t.commands;
        replies = new_reply ids e.id p correlation completion ∷ t.replies;
        reply_jobs = new_reply_job ids e.id correlation completion ∷ t.reply_jobs;
      },
    )

-- The row that a claim holds.
unfoldable pub owned_event : ProcessingClaimId → InboundEventId → EventTables → Option InboundEvent
owned_event claim k t = elim (select event_id k t.events) [
  | none ↦ none
  | some e ↦ if owns_event claim e then some e else none
]

unfoldable pub complete :
    ℕ
    → DrawnIds
    → CorrelationId
    → ProcessingClaimId
    → InboundEventId
    → EventCompletion
    → Effect EventTables ProcessError OutboundChannelMessageId
complete now ids correlation claim k completion t = elim (owned_event claim k t) [
  | none ↦ (err processing_unavailable, t)
  | some e ↦ elim e.normalized_payload [
    | none ↦ (err processing_unavailable, t)
    | some p ↦ complete_event now ids correlation completion e p t
  ]
]

abbrev pub release_event : InboundEvent → InboundEvent
release_event e = record e {
  processing_status = awaiting;
  processing_claim_id = none;
  processing_claimed_until = none;
}

unfoldable pub release :
    ProcessingClaimId → InboundEventId → Effect EventTables ProcessError (Unit {0})
release claim k t = elim (owned_event claim k t) [
  | none ↦ (ok tt, t)
  | some e ↦ (ok tt, record t { events = update event_id e.id release_event t.events })
]
