-- ===== src/Events/Store/Claim.antt =====
-- `claim` of packages/adapters/src/postgres/telegram-event-processing-store.ts. `drawn` is what
-- gen_random_uuid() draws.
use xpens_go.Prelude.{
  Bool, List, Option, String, false, if◌then◌else◌, is_none, leb, none, some, true, ℕ, ◌&&◌, ◌*◌,
  ◌+◌,
}
use xpens_go.Delivery.Store.Claim.{is_held, seconds_left}
use xpens_go.Effect.{Effect, ok}
use xpens_go.Events.Rows.{
  AbuseWindow, EventPayload, EventTables, InboundEvent, ProcessingStatus, abuse_limited, awaiting,
  event_id, event_job_id, event_processed, event_suppressed, identity_scope, in_process,
  system_scope,
}
use xpens_go.Events.Types.{
  ClaimEventOutcome, ClaimedEvent, ProcessError, ProcessingClaimId, event_claimed, event_deferred,
  event_duplicate, event_missing, event_rate_limited,
}
use xpens_go.Events.Windows.{count_event, minute_of}
use xpens_go.Outbox.Types.{OutboxMessageId}
use xpens_go.Table.{select, update}

-- `TelegramProcessingPolicy`.
pub record ProcessingPolicy : Type 0 where
  pub per_identity_per_minute : ℕ
  pub system_per_minute : ℕ
  pub lease_seconds : ℕ

abbrev pub default_processing_policy : ProcessingPolicy
default_processing_policy = record {
  per_identity_per_minute = 30;
  system_per_minute = 300;
  lease_seconds = 60;
}

abbrev pub has_payload : InboundEvent → Option (InboundEvent × EventPayload)
has_payload e = elim e.normalized_payload [ none ↦ none | some p ↦ some (e, p) ]

-- The event of a job, joined; an event without a payload is not selected.
unfoldable pub event_of : EventTables → OutboxMessageId → Option (InboundEvent × EventPayload)
event_of t outbox = elim (select event_job_id outbox t.event_jobs) [
  | none ↦ none
  | some job ↦ elim (select event_id job.inbound_event_id t.events) [
    | none ↦ none
    | some e ↦ has_payload e
  ]
]

-- ['processed', 'suppressed'].includes(status)
abbrev pub is_settled : ProcessingStatus → Bool
is_settled event_processed = true
is_settled event_suppressed = true
is_settled awaiting = false
is_settled in_process = false

abbrev pub is_in_process : ProcessingStatus → Bool
is_in_process in_process = true
is_in_process _ = false

abbrev pub is_false : Option Bool → Bool
is_false (some false) = true
is_false _ = false

-- COALESCE(column, value)
abbrev pub coalesce : {A : Type 0} → Option A → A → Option A
coalesce none a = some a
coalesce (some b) a = some b

abbrev pub suppress_abuse : ℕ → InboundEvent → InboundEvent
suppress_abuse now e = record e {
  processing_status = event_suppressed;
  processing_outcome = some abuse_limited;
  processed_at = some now;
  processing_claim_id = none;
  processing_claimed_until = none;
  abuse_checked_at = some now;
  abuse_allowed = some false;
}

abbrev pub start_processing : ProcessingClaimId → ℕ → ProcessingPolicy → InboundEvent → InboundEvent
start_processing drawn now policy e = record e {
  processing_status = in_process;
  processing_claim_id = some drawn;
  processing_claimed_until = some (now + policy.lease_seconds * 1000);
  processing_attempts = e.processing_attempts + 1;
  abuse_checked_at = coalesce e.abuse_checked_at now;
  abuse_allowed = coalesce e.abuse_allowed true;
}

abbrev pub claimed_event : ProcessingClaimId → InboundEvent → EventPayload → ClaimedEvent
claimed_event drawn e p = record {
  claim_id = drawn;
  inbound_event_id = e.id;
  external_account_id = p.external_account_id;
  content = p.content;
}

abbrev pub started :
    ProcessingClaimId
    → ℕ
    → ProcessingPolicy
    → InboundEvent
    → EventPayload
    → Effect EventTables ProcessError ClaimEventOutcome
started drawn now policy e p t = (
  ok (event_claimed (claimed_event drawn e p)),
  record t { events = update event_id e.id (start_processing drawn now policy) t.events },
)

-- The two counters of an event that is checked for the first time: of the system, and of its
-- identity.
abbrev pub counted_windows : ℕ → String → List AbuseWindow → List AbuseWindow
counted_windows now account ws =
    (count_event (identity_scope account) (minute_of now)
      (count_event system_scope (minute_of now) ws).1).1

unfoldable pub is_within_limits : ℕ → ProcessingPolicy → String → List AbuseWindow → Bool
is_within_limits now policy account ws =
    let (system_count, counted) = count_event system_scope (minute_of now) ws in
    leb system_count policy.system_per_minute
    && leb (count_event (identity_scope account) (minute_of now) counted).0
        policy.per_identity_per_minute

-- The body of the claiming transaction once its row is read.
unfoldable pub claim_event :
    ProcessingClaimId
    → ℕ
    → ℕ
    → ProcessingPolicy
    → InboundEvent
    → EventPayload
    → Effect EventTables ProcessError ClaimEventOutcome
claim_event drawn clock now policy e p t =
    if is_settled e.processing_status
    then (ok event_duplicate, t)
    else if is_in_process e.processing_status && is_held e.processing_claimed_until clock
    then (ok (event_deferred (seconds_left e.processing_claimed_until clock)), t)
    else if is_false e.abuse_allowed
    then (ok event_rate_limited, t)
    else if is_none e.abuse_allowed
    then (let counted = record t {
      windows = counted_windows now p.external_account_id t.windows;
    } in
        if is_within_limits now policy p.external_account_id t.windows
        then started drawn now policy e p counted
        else (
          ok event_rate_limited,
          record counted { events = update event_id e.id (suppress_abuse now) t.events },
        ))
    else started drawn now policy e p t

unfoldable pub claim :
    ProcessingClaimId
    → ℕ
    → ℕ
    → ProcessingPolicy
    → OutboxMessageId
    → Effect EventTables ProcessError ClaimEventOutcome
claim drawn clock now policy outbox t = elim (event_of t outbox) [
  | none ↦ (ok event_missing, t)
  | some (e, p) ↦ claim_event drawn clock now policy e p t
]
