-- ===== src/Events/Store/Limit.antt =====
-- `enforceUserLimit` of packages/adapters/src/postgres/telegram-event-processing-store.ts.
use xpens_go.Prelude.{Bool, false, if◌then◌else◌, leb, none, some, true, ℕ}
use xpens_go.Effect.{Effect, err, ok}
use xpens_go.Events.Rows.{
  EventTables, InboundEvent, event_id, event_suppressed, user_abuse_limited, user_scope,
}
use xpens_go.Events.Store.Claim.{claim}
use xpens_go.Events.Store.Complete.{owned_event}
use xpens_go.Events.Types.{
  InboundEventId, ProcessError, ProcessingClaimId, UserLimit, over_limit, processing_unavailable,
  within_limit,
}
use xpens_go.Events.Windows.{count_event, minute_of}
use xpens_go.Table.{update}

abbrev pub allow_user : ℕ → InboundEvent → InboundEvent
allow_user now e = record e { user_abuse_checked_at = some now; user_abuse_allowed = some true }

abbrev pub suppress_user : ℕ → InboundEvent → InboundEvent
suppress_user now e = record e {
  processing_status = event_suppressed;
  processing_outcome = some user_abuse_limited;
  processed_at = some now;
  processing_claim_id = none;
  processing_claimed_until = none;
  user_abuse_checked_at = some now;
  user_abuse_allowed = some false;
}

abbrev pub limit_of : Bool → UserLimit
limit_of true = within_limit
limit_of false = over_limit

-- The body of the transaction once its row is read: a decision that was made stays.
unfoldable pub limit_event : ℕ → ℕ → ℕ → InboundEvent → Effect EventTables ProcessError UserLimit
limit_event now maximum user e t = elim e.user_abuse_allowed [
  | some allowed ↦ (ok (limit_of allowed), t)
  | none ↦
      let (counted, ws) = count_event (user_scope user) (minute_of now) t.windows in
      if leb counted maximum
      then (
        ok within_limit,
        record t { windows = ws; events = update event_id e.id (allow_user now) t.events },
      )
      else (
        ok over_limit,
        record t { windows = ws; events = update event_id e.id (suppress_user now) t.events },
      )
]

unfoldable pub enforce_user_limit :
    ℕ → ℕ → ProcessingClaimId → InboundEventId → ℕ → Effect EventTables ProcessError UserLimit
enforce_user_limit now maximum claim k user t = elim (owned_event claim k t) [
  | none ↦ (err processing_unavailable, t)
  | some e ↦ limit_event now maximum user e t
]
