-- ===== src/Events/Checks.antt =====
-- The CHECK constraints of `inbound_channel_events` and its primary key: packages/adapters/src/
-- postgres/migrations/0009-telegram-processing.ts.
use xpens_go.Prelude.{All, Bool, false, is_none, not, true, ◌&&◌, ◌||◌, ◌≡◌}
use xpens_go.Events.Rows.{
  EventTables, InboundEvent, ProcessingStatus, awaiting, event_id, event_processed,
  event_suppressed, in_process,
}
use xpens_go.Events.Store.Claim.{is_in_process}
use xpens_go.Table.{HasUniqueKeys}

abbrev pub both_or_neither : Bool → Bool → Bool
both_or_neither true b = b
both_or_neither false b = not b

-- The claim is complete where there is one, and only an event in process has one.
abbrev pub processing_claim_complete : InboundEvent → Bool
processing_claim_complete e =
    (is_none e.processing_claim_id && is_none e.processing_claimed_until)
    || (is_in_process e.processing_status
        && not (is_none e.processing_claim_id)
        && not (is_none e.processing_claimed_until))

abbrev pub abuse_decision_complete : InboundEvent → Bool
abuse_decision_complete e = both_or_neither (is_none e.abuse_checked_at) (is_none e.abuse_allowed)

abbrev pub user_abuse_decision_complete : InboundEvent → Bool
user_abuse_decision_complete e =
    both_or_neither (is_none e.user_abuse_checked_at) (is_none e.user_abuse_allowed)

abbrev pub processing_state_of : ProcessingStatus → Bool → Bool → Bool
processing_state_of awaiting no_claim unprocessed = no_claim && unprocessed
processing_state_of in_process no_claim unprocessed = not no_claim && unprocessed
processing_state_of event_processed no_claim unprocessed = no_claim && not unprocessed
processing_state_of event_suppressed no_claim unprocessed = no_claim && not unprocessed

abbrev pub processing_state_complete : InboundEvent → Bool
processing_state_complete e =
    processing_state_of e.processing_status (is_none e.processing_claim_id) (is_none e.processed_at)

pub record RowChecks (e : InboundEvent) : Type 0 where
  pub claim_complete : processing_claim_complete e ≡ true
  pub abuse_complete : abuse_decision_complete e ≡ true
  pub user_abuse_complete : user_abuse_decision_complete e ≡ true
  pub state_complete : processing_state_complete e ≡ true

pub record MeetsEventChecks (t : EventTables) : Type 0 where
  pub unique : HasUniqueKeys event_id t.events
  pub rows : All RowChecks t.events
