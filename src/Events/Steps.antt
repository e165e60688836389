-- ===== src/Events/Steps.antt =====
-- What a call of the store may do to the tables, as a step relation: packages/adapters/src/postgres/
-- telegram-event-processing-store.ts.
pub mod Calls
pub mod Consistent
pub mod Once
pub mod Final
pub mod Limits
pub mod Admitted
pub mod Holder
pub mod Claims
pub mod Superseded
use xpens_go.Prelude.{Option, false, none, some, true, ℕ, ◌++◌, ◌∷◌, ◌≡◌}
use xpens_go.Events.Rows.{EventPayload, EventTables, InboundEvent, event_id, user_scope}
use xpens_go.Events.Store.Claim.{
  ProcessingPolicy, counted_windows, is_in_process, is_settled, is_within_limits, start_processing,
  suppress_abuse,
}
use xpens_go.Events.Store.Complete.{
  DrawnIds, is_refused, new_commands, new_reply, new_reply_job, process_event, release_event,
}
use xpens_go.Events.Store.Limit.{allow_user, suppress_user}
use xpens_go.Events.Types.{EventCompletion}
use xpens_go.Events.Windows.{count_event, minute_of}
use xpens_go.Outbox.Types.{CorrelationId}
use xpens_go.Table.{select, update}

-- The row that a call rewrites is the one that its key selects.
abbrev pub IsRow : EventTables → InboundEvent → Type 0
IsRow t e = select event_id e.id t.events ≡ some e

abbrev pub rewrite : InboundEvent → (InboundEvent → InboundEvent) → EventTables → EventTables
rewrite e f t = record t { events = update event_id e.id f t.events }

abbrev pub count_check : ℕ → EventPayload → EventTables → EventTables
count_check now p t = record t { windows = counted_windows now p.external_account_id t.windows }

abbrev pub count_user : ℕ → ℕ → EventTables → EventTables
count_user now user t = record t {
  windows = (count_event (user_scope user) (minute_of now) t.windows).1;
}

abbrev pub insert_reply :
    DrawnIds
    → CorrelationId
    → EventCompletion
    → InboundEvent
    → EventPayload
    → EventTables
    → EventTables
insert_reply ids correlation completion e p t = record t {
  commands = new_commands e.id p correlation completion ++ t.commands;
  replies = new_reply ids e.id p correlation completion ∷ t.replies;
  reply_jobs = new_reply_job ids e.id correlation completion ∷ t.reply_jobs;
}

-- `used` is the policy that the call was made with, if it was a claim.
pub data EventStep (used : Option ProcessingPolicy) (t : EventTables) : EventTables → Type 0 where
  stays : EventStep used t t
  rejects :
      (now : ℕ) (policy : ProcessingPolicy) (e : InboundEvent) (p : EventPayload)
      → IsRow t e
      → e.normalized_payload ≡ some p
      → is_settled e.processing_status ≡ false
      → e.abuse_allowed ≡ none
      → is_within_limits now policy p.external_account_id t.windows ≡ false
      → EventStep used t (rewrite e (suppress_abuse now) (count_check now p t))
  admits :
      (drawn now : ℕ) (policy : ProcessingPolicy) (e : InboundEvent) (p : EventPayload)
      → used ≡ some policy
      → IsRow t e
      → e.normalized_payload ≡ some p
      → is_settled e.processing_status ≡ false
      → e.abuse_allowed ≡ none
      → is_within_limits now policy p.external_account_id t.windows ≡ true
      → EventStep used t (rewrite e (start_processing drawn now policy) (count_check now p t))
  -- The event was admitted before: it is not counted again.
  resumes :
      (drawn now : ℕ) (policy : ProcessingPolicy) (e : InboundEvent)
      → IsRow t e
      → is_settled e.processing_status ≡ false
      → e.abuse_allowed ≡ some true
      → EventStep used t (rewrite e (start_processing drawn now policy) t)
  completed :
      (now : ℕ) (ids : DrawnIds) (correlation : CorrelationId) (completion : EventCompletion)
      (e : InboundEvent) (p : EventPayload)
      → IsRow t e
      → is_in_process e.processing_status ≡ true
      → is_refused ids e.id (new_commands e.id p correlation completion) t ≡ false
      → EventStep used t
          (rewrite e (process_event now completion) (insert_reply ids correlation completion e p t))
  allows :
      (now user : ℕ) (e : InboundEvent)
      → IsRow t e
      → is_in_process e.processing_status ≡ true
      → e.user_abuse_allowed ≡ none
      → EventStep used t (rewrite e (allow_user now) (count_user now user t))
  suppresses :
      (now user : ℕ) (e : InboundEvent)
      → IsRow t e
      → is_in_process e.processing_status ≡ true
      → e.user_abuse_allowed ≡ none
      → EventStep used t (rewrite e (suppress_user now) (count_user now user t))
  gives_up :
      (e : InboundEvent)
      → IsRow t e
      → is_in_process e.processing_status ≡ true
      → EventStep used t (rewrite e release_event t)
