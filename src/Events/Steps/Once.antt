-- ===== src/Events/Steps/Once.antt =====
-- What one event brings about over every sequence of calls: packages/adapters/src/postgres/
-- telegram-event-processing-store.ts.
use xpens_go.Prelude.{
  ==_iff, ==_sym, Bool, Bool-cases, List, Option, [], arith, count, false, if◌then◌else◌, inl, inr,
  none, refl, some, subst, sym, true, ℕ, ◌&&◌, ◌==◌, ◌∷◌, ◌≡◌,
}
use xpens_go.Events.Calls.{StoreCall, call, run_calls}
use xpens_go.Events.Rows.{
  EventPayload, EventTables, InboundEvent, ProcessingOutcome, ProcessingStatus, awaiting, event_id,
  event_processed, event_suppressed, in_process, is_command_of, is_reply_job_of, is_reply_of,
  normalized_text_accepted,
}
use xpens_go.Events.Steps.{
  EventStep, IsRow, admits, allows, completed, count_check, count_user, gives_up, insert_reply,
  rejects, resumes, rewrite, stays, suppresses,
}
use xpens_go.Events.Steps.Calls.{call-EventStep}
use xpens_go.Events.Steps.Consistent.{in_process-unsettled}
use xpens_go.Events.Steps.Limits.{admitted}
use xpens_go.Events.Store.Claim.{
  ProcessingPolicy, is_in_process, is_settled, start_processing, suppress_abuse,
}
use xpens_go.Events.Store.Complete.{DrawnIds, process_event, release_event}
use xpens_go.Events.Store.Limit.{allow_user, suppress_user}
use xpens_go.Events.Types.{
  EventCompletion, InboundEventId, linked_text_accepted, scoped_reply, unscoped_reply,
}
use xpens_go.Table.{KeepsKey, select, update}
use xpens_go.Table.Laws.{select-update_ne, select-update_self}

pub record EventTally : Type 0 where
  pub replies : ℕ
  pub jobs : ℕ
  pub commands : ℕ

abbrev pub event_tally : InboundEventId → EventTables → EventTally
event_tally k t = record {
  replies = count (is_reply_of k) t.replies;
  jobs = count (is_reply_job_of k) t.reply_jobs;
  commands = count (is_command_of k) t.commands;
}

abbrev pub is_processed : ProcessingStatus → Bool
is_processed event_processed = true
is_processed _ = false

abbrev pub is_accepted : Option ProcessingOutcome → Bool
is_accepted (some normalized_text_accepted) = true
is_accepted _ = false

-- A processed event has one reply and one job for it, and a command if its text was accepted; any
-- other event has none of these.
abbrev pub Answers : InboundEvent → EventTally → Type 0
Answers e n =
    (n.replies ≡ (if is_processed e.processing_status then 1 else 0))
    × (n.jobs ≡ (if is_processed e.processing_status then 1 else 0))
    × (n.commands
        ≡ (if is_processed e.processing_status && is_accepted e.processing_outcome then 1 else 0))

abbrev pub Answered : Option InboundEvent → EventTally → Type 0
Answered none n = (n.replies ≡ 0) × (n.jobs ≡ 0) × (n.commands ≡ 0)
Answered (some e) n = Answers e n

abbrev pub IsAnswered : InboundEventId → EventTables → Type 0
IsAnswered k t = Answered (select event_id k t.events) (event_tally k t)

rewrite-IsAnswered :
    (k : ℕ) (t t' : EventTables) (e : InboundEvent) (f : InboundEvent → InboundEvent)
    → t'.events ≡ update event_id e.id f t.events
    → IsRow t e
    → KeepsKey event_id f
    → ((e.id == k) ≡ true → Answers e (event_tally k t) → Answers (f e) (event_tally k t'))
    → ((e.id == k) ≡ false → event_tally k t' ≡ event_tally k t)
    → IsAnswered k t
    → IsAnswered k t'
rewrite-IsAnswered k t t' e f events row keep same other h = elim (Bool-cases (e.id == k)) [
  | inl here ↦
      let own = (==_iff e.id k).0 here in
      let at_k : select event_id k t.events ≡ some e =
        subst (λ x. select event_id x t.events ≡ some e) own row in
      subst (λ x. Answered (select event_id k x) (event_tally k t')) (sym events)
        (subst (λ x. Answered (select event_id k (update event_id x f t.events)) (event_tally k t'))
          (sym own)
          (rw (select-update_self event_id k f keep t.events, at_k)
            (same here (subst (λ o. Answered o (event_tally k t)) at_k h))))
  | inr there ↦
      subst (λ x. Answered (select event_id k x) (event_tally k t')) (sym events)
        (rw
          (
            select-update_ne event_id e.id k f keep (ground (arith, ==_sym k e.id)) t.events,
            other there,
          )
          h)
]

pub unsettled-unprocessed : (s : ProcessingStatus) → is_settled s ≡ false → is_processed s ≡ false
unsettled-unprocessed awaiting h = refl
unsettled-unprocessed in_process h = refl
unsettled-unprocessed event_processed h = cc
unsettled-unprocessed event_suppressed h = cc

quiet-Answers :
    (e e' : InboundEvent) (n : EventTally)
    → is_processed e.processing_status ≡ false
    → is_processed e'.processing_status ≡ false
    → Answers e n
    → Answers e' n
quiet-Answers e e' n before after (r, j, c) =
    (ground (arith, r), ground (arith, j), ground (arith, c))

-- A change that leaves an unsettled event unprocessed, and inserts nothing.
pub unanswered :
    (k : ℕ) (t t' : EventTables) (e : InboundEvent) (f : InboundEvent → InboundEvent)
    → t'.events ≡ update event_id e.id f t.events
    → IsRow t e
    → KeepsKey event_id f
    → event_tally k t' ≡ event_tally k t
    → is_settled e.processing_status ≡ false
    → is_processed (f e).processing_status ≡ false
    → IsAnswered k t
    → IsAnswered k t'
unanswered k t t' e f events row keep inserted unsettled after h =
    let before = unsettled-unprocessed e.processing_status unsettled in
    rewrite-IsAnswered k t t' e f events row keep
      (λ same a.
        subst (λ n. Answers (f e) n) (sym inserted)
          (quiet-Answers e (f e) (event_tally k t) before after a))
      (λ other. inserted) h

insert-Answers :
    (k now : ℕ) (ids : DrawnIds) (correlation : ℕ) (completion : EventCompletion) (e : InboundEvent)
    (p : EventPayload) (t : EventTables)
    → (e.id == k) ≡ true
    → is_processed e.processing_status ≡ false
    → Answers e (event_tally k t)
    → Answers
        (process_event now completion e)
        (event_tally k (insert_reply ids correlation completion e p t))
insert-Answers k now ids correlation (unscoped_reply intent) e p t same before (r, j, c) =
    (ground arith, ground arith, ground arith)
insert-Answers k now ids correlation (scoped_reply actor intent) e p t same before (r, j, c) =
    (ground arith, ground arith, ground arith)
insert-Answers k now ids correlation (linked_text_accepted actor text intent) e p t same before
      (r, j, c) =
    (ground arith, ground arith, ground arith)

insert-other :
    (k : ℕ) (ids : DrawnIds) (correlation : ℕ) (completion : EventCompletion) (e : InboundEvent)
    (p : EventPayload) (t : EventTables)
    → (e.id == k) ≡ false
    → event_tally k (insert_reply ids correlation completion e p t) ≡ event_tally k t
insert-other k ids correlation (unscoped_reply intent) e p t other = rw other refl
insert-other k ids correlation (scoped_reply actor intent) e p t other = rw other refl
insert-other k ids correlation (linked_text_accepted actor text intent) e p t other = rw other refl

completed-IsAnswered :
    (k now : ℕ) (ids : DrawnIds) (correlation : ℕ) (completion : EventCompletion) (e : InboundEvent)
    (p : EventPayload) (t : EventTables)
    → IsRow t e
    → is_in_process e.processing_status ≡ true
    → IsAnswered k t
    → IsAnswered k
        (rewrite e (process_event now completion) (insert_reply ids correlation completion e p t))
completed-IsAnswered k now ids correlation completion e p t row busy h =
    let before =
      unsettled-unprocessed e.processing_status (in_process-unsettled e.processing_status busy) in
    rewrite-IsAnswered k t
      (rewrite e (process_event now completion) (insert_reply ids correlation completion e p t)) e
      (process_event now completion) refl row (λ r. refl)
      (λ same (r, j, c).
        insert-Answers k now ids correlation completion e p t same before (r, j, c))
      (λ other. insert-other k ids correlation completion e p t other) h

step-IsAnswered :
    {used : Option ProcessingPolicy} {t t' : EventTables} (k : ℕ)
    → EventStep used t t'
    → IsAnswered k t
    → IsAnswered k t'
step-IsAnswered k stays h = h
step-IsAnswered {t = t} k (rejects now policy e p row payload unsettled unchecked beyond) h =
    unanswered k t (rewrite e (suppress_abuse now) (count_check now p t)) e (suppress_abuse now)
      refl row (λ r. refl) refl unsettled refl h
step-IsAnswered {t = t} k
      (admits drawn now policy e p with_policy row payload unsettled unchecked within) h =
    unanswered k t (rewrite e (start_processing drawn now policy) (count_check now p t)) e
      (start_processing drawn now policy) refl row (λ r. refl) refl unsettled refl h
step-IsAnswered {t = t} k (resumes drawn now policy e row unsettled admitted) h =
    unanswered k t (rewrite e (start_processing drawn now policy) t) e
      (start_processing drawn now policy) refl row (λ r. refl) refl unsettled refl h
step-IsAnswered {t = t} k (completed now ids correlation completion e p row busy fresh) h =
    completed-IsAnswered k now ids correlation completion e p t row busy h
step-IsAnswered {t = t} k (allows now user e row busy undecided) h =
    let unsettled = in_process-unsettled e.processing_status busy in
    unanswered k t (rewrite e (allow_user now) (count_user now user t)) e (allow_user now) refl row
      (λ r. refl) refl unsettled (unsettled-unprocessed e.processing_status unsettled) h
step-IsAnswered {t = t} k (suppresses now user e row busy undecided) h =
    unanswered k t (rewrite e (suppress_user now) (count_user now user t)) e (suppress_user now)
      refl row (λ r. refl) refl (in_process-unsettled e.processing_status busy) refl h
step-IsAnswered {t = t} k (gives_up e row busy) h =
    unanswered k t (rewrite e release_event t) e release_event refl row (λ r. refl) refl
      (in_process-unsettled e.processing_status busy) refl h

-- Over every sequence of claims, completions, limit checks and releases, by any workers in any order
-- and with any identifiers, an event has exactly one reply and one job for it if it is processed,
-- and none otherwise, and exactly one command if its text was accepted, and none otherwise, given
-- that this holds of the tables at the start.
pub run_calls-IsAnswered :
    (k : InboundEventId) (cs : List StoreCall) (t : EventTables)
    → IsAnswered k t
    → IsAnswered k (run_calls cs t)
unfolding run_calls
run_calls-IsAnswered k [] t h = h
run_calls-IsAnswered k (c ∷ cs) t h =
    run_calls-IsAnswered k cs (call c t) (step-IsAnswered k (call-EventStep c t) h)
