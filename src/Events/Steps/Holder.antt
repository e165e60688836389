-- ===== src/Events/Steps/Holder.antt =====
-- A worker that holds an event can complete it: packages/adapters/src/postgres/
-- telegram-event-processing-store.ts.
use xpens_go.Prelude.{arith, contains, count, false, map, refl, some, subst, sym, true, ℕ, ◌≡◌}
use xpens_go.Effect.{ok}
use xpens_go.Events.Rows.{
  EventPayload, EventTables, InboundEvent, event_id, event_job_id, event_reply_id, is_command_of,
  is_reply_job_of, is_reply_of, reply_job_id,
}
use xpens_go.Events.Steps.{insert_reply, rewrite}
use xpens_go.Events.Steps.Calls.{owned_event-select}
use xpens_go.Events.Steps.Consistent.{in_process-unsettled}
use xpens_go.Events.Steps.Once.{
  Answered, Answers, EventTally, IsAnswered, event_tally, unsettled-unprocessed,
}
use xpens_go.Events.Store.Claim.{is_in_process}
use xpens_go.Events.Store.Complete.{
  DrawnIds, complete, complete_event, is_refused, new_commands, owned_event, process_event,
}
use xpens_go.Events.Types.{EventCompletion, linked_text_accepted, scoped_reply, unscoped_reply}
use xpens_go.Table.{select}

-- No row has one of the drawn identifiers.
pub record AreFresh (ids : DrawnIds) (t : EventTables) : Type 0 where
  pub fresh_reply_id : contains (map event_reply_id t.replies) ids.reply_id ≡ false
  pub fresh_in_event_jobs : contains (map event_job_id t.event_jobs) ids.job_id ≡ false
  pub fresh_in_reply_jobs : contains (map reply_job_id t.reply_jobs) ids.job_id ≡ false

busy-Answers :
    (e : InboundEvent) (n : EventTally)
    → is_in_process e.processing_status ≡ true
    → Answers e n
    → (n.replies ≡ 0) × (n.jobs ≡ 0) × (n.commands ≡ 0)
busy-Answers e n busy (r, j, c) =
    let quiet =
      unsettled-unprocessed e.processing_status (in_process-unsettled e.processing_status busy) in
    (ground (arith, r, quiet), ground (arith, j, quiet), ground (arith, c, quiet))

is_refused-fresh :
    (ids : DrawnIds) (k correlation : ℕ) (p : EventPayload) (completion : EventCompletion)
    (t : EventTables)
    → count (is_reply_of k) t.replies ≡ 0
    → count (is_reply_job_of k) t.reply_jobs ≡ 0
    → count (is_command_of k) t.commands ≡ 0
    → AreFresh ids t
    → is_refused ids k (new_commands k p correlation completion) t ≡ false
unfolding is_refused
is_refused-fresh ids k correlation p (unscoped_reply intent) t r j c f =
    rw (r, j, f.fresh_reply_id, f.fresh_in_event_jobs, f.fresh_in_reply_jobs) refl
is_refused-fresh ids k correlation p (scoped_reply actor intent) t r j c f =
    rw (r, j, f.fresh_reply_id, f.fresh_in_event_jobs, f.fresh_in_reply_jobs) refl
is_refused-fresh ids k correlation p (linked_text_accepted actor text intent) t r j c f =
    rw (r, j, c, f.fresh_reply_id, f.fresh_in_event_jobs, f.fresh_in_reply_jobs) refl

-- The completion of a claim that holds the event succeeds: no constraint is in its way, where every
-- unprocessed event has no reply, job or command, and the drawn identifiers are new.
pub holder_completes :
    (now : ℕ) (ids : DrawnIds) (correlation held k : ℕ) (completion : EventCompletion)
    (e : InboundEvent) (p : EventPayload) (t : EventTables)
    → owned_event held k t ≡ some e
    → e.normalized_payload ≡ some p
    → IsAnswered k t
    → AreFresh ids t
    → complete now ids correlation held k completion t ≡ (
      ok ids.reply_id,
      rewrite e (process_event now completion) (insert_reply ids correlation completion e p t),
    )
unfolding complete complete_event
holder_completes now ids correlation held k completion e p t owned payload answered fresh =
    let (row, (same, owns)) = owned_event-select held k t e owned in
    let at_k : select event_id k t.events ≡ some e =
      subst (λ x. select event_id x t.events ≡ some e) same row in
    let (r, j, c) =
      busy-Answers e (event_tally k t) (ground arith)
        (subst (λ o. Answered o (event_tally k t)) at_k answered) in
    let open_way =
      subst (λ x. is_refused ids x (new_commands x p correlation completion) t ≡ false) (sym same)
        (is_refused-fresh ids k correlation p completion t r j c fresh) in
    rw (owned, payload, open_way, complete) refl
