-- ===== src/Events/Steps/Consistent.antt =====
-- The CHECK constraints hold over every sequence of calls: packages/adapters/src/postgres/
-- telegram-event-processing-store.ts and migrations/0009-telegram-processing.ts.
use xpens_go.Prelude.{
  Bool, List, Option, [], arith, false, is_none, none, refl, some, subst, sym, true, ℕ, ◌∷◌, ◌≡◌,
}
use xpens_go.Events.Calls.{StoreCall, call, run_calls}
use xpens_go.Events.Checks.{MeetsEventChecks, RowChecks, both_or_neither, processing_state_of}
use xpens_go.Events.Rows.{
  EventTables, InboundEvent, ProcessingStatus, awaiting, event_id, event_processed,
  event_suppressed, in_process,
}
use xpens_go.Events.Steps.{
  EventStep, IsRow, admits, allows, completed, gives_up, rejects, resumes, stays, suppresses,
}
use xpens_go.Events.Steps.Calls.{call-EventStep}
use xpens_go.Events.Steps.Limits.{admitted}
use xpens_go.Events.Store.Claim.{
  ProcessingPolicy, coalesce, is_in_process, is_settled, start_processing, suppress_abuse,
}
use xpens_go.Events.Store.Complete.{process_event, release_event}
use xpens_go.Events.Store.Limit.{allow_user, suppress_user}
use xpens_go.Table.{KeepsKey, update}
use xpens_go.Table.Counts.{update_one-All}
use xpens_go.Table.Laws.{HasUniqueKeys-update}

-- The row that is rewritten is the only one to look at.
pub rewrite-MeetsEventChecks :
    (t t' : EventTables) (e : InboundEvent) (f : InboundEvent → InboundEvent)
    → t'.events ≡ update event_id e.id f t.events
    → IsRow t e
    → KeepsKey event_id f
    → (RowChecks e → RowChecks (f e))
    → MeetsEventChecks t
    → MeetsEventChecks t'
rewrite-MeetsEventChecks t t' e f events row keep checks h = record {
  unique = rw events (HasUniqueKeys-update event_id e.id f keep t.events h.unique);
  rows = rw events (
      update_one-All event_id RowChecks e.id f t.events h.unique
        (λ r found meets.
          let same : e ≡ r = cc in
          subst (λ x. RowChecks (f x)) same (checks (subst RowChecks (sym same) meets)))
        h.rows);
}

unsettled-unprocessed :
    (s : ProcessingStatus) (c u : Bool)
    → is_settled s ≡ false
    → processing_state_of s c u ≡ true
    → u ≡ true
unsettled-unprocessed awaiting c u h state = ground arith
unsettled-unprocessed in_process c u h state = ground arith
unsettled-unprocessed event_processed c u h state = cc
unsettled-unprocessed event_suppressed c u h state = cc

pub in_process-unsettled : (s : ProcessingStatus) → is_in_process s ≡ true → is_settled s ≡ false
in_process-unsettled awaiting h = refl
in_process-unsettled in_process h = refl
in_process-unsettled event_processed h = cc
in_process-unsettled event_suppressed h = cc

coalesced-both :
    {A B : Type 0} (a : Option A) (b : Option B) (x : A) (y : B)
    → both_or_neither (is_none (coalesce a x)) (is_none (coalesce b y)) ≡ true
coalesced-both none none x y = refl
coalesced-both none (some b) x y = refl
coalesced-both (some a) none x y = refl
coalesced-both (some a) (some b) x y = refl

start-RowChecks :
    (drawn now : ℕ) (policy : ProcessingPolicy) (e : InboundEvent)
    → is_settled e.processing_status ≡ false
    → RowChecks e
    → RowChecks (start_processing drawn now policy e)
start-RowChecks drawn now policy e unsettled c = record {
  claim_complete = refl;
  abuse_complete = coalesced-both e.abuse_checked_at e.abuse_allowed now true;
  user_abuse_complete = c.user_abuse_complete;
  state_complete =
      unsettled-unprocessed e.processing_status (is_none e.processing_claim_id)
        (is_none e.processed_at) unsettled c.state_complete;
}

step-MeetsEventChecks :
    {used : Option ProcessingPolicy} {t t' : EventTables}
    → EventStep used t t'
    → MeetsEventChecks t
    → MeetsEventChecks t'
step-MeetsEventChecks stays h = h
step-MeetsEventChecks {t = t} (rejects now policy e p row payload unsettled unchecked beyond) h =
    rewrite-MeetsEventChecks t _ e (suppress_abuse now) refl row (λ r. refl)
      (λ c. record {
        claim_complete = refl;
        abuse_complete = refl;
        user_abuse_complete = c.user_abuse_complete;
        state_complete = refl;
      })
      h
step-MeetsEventChecks {t = t}
      (admits drawn now policy e p with_policy row payload unsettled unchecked within) h =
    rewrite-MeetsEventChecks t _ e (start_processing drawn now policy) refl row (λ r. refl)
      (start-RowChecks drawn now policy e unsettled) h
step-MeetsEventChecks {t = t} (resumes drawn now policy e row unsettled admitted) h =
    rewrite-MeetsEventChecks t _ e (start_processing drawn now policy) refl row (λ r. refl)
      (start-RowChecks drawn now policy e unsettled) h
step-MeetsEventChecks {t = t} (completed now ids correlation completion e p row busy fresh) h =
    rewrite-MeetsEventChecks t _ e (process_event now completion) refl row (λ r. refl)
      (λ c. record {
        claim_complete = refl;
        abuse_complete = c.abuse_complete;
        user_abuse_complete = c.user_abuse_complete;
        state_complete = refl;
      })
      h
step-MeetsEventChecks {t = t} (allows now user e row busy undecided) h =
    rewrite-MeetsEventChecks t _ e (allow_user now) refl row (λ r. refl)
      (λ c. record {
        claim_complete = c.claim_complete;
        abuse_complete = c.abuse_complete;
        user_abuse_complete = refl;
        state_complete = c.state_complete;
      })
      h
step-MeetsEventChecks {t = t} (suppresses now user e row busy undecided) h =
    rewrite-MeetsEventChecks t _ e (suppress_user now) refl row (λ r. refl)
      (λ c. record {
        claim_complete = refl;
        abuse_complete = c.abuse_complete;
        user_abuse_complete = refl;
        state_complete = refl;
      })
      h
step-MeetsEventChecks {t = t} (gives_up e row busy) h =
    rewrite-MeetsEventChecks t _ e release_event refl row (λ r. refl)
      (λ c. record {
        claim_complete = refl;
        abuse_complete = c.abuse_complete;
        user_abuse_complete = c.user_abuse_complete;
        state_complete =
            unsettled-unprocessed e.processing_status (is_none e.processing_claim_id)
              (is_none e.processed_at) (in_process-unsettled e.processing_status busy)
              c.state_complete;
      })
      h

pub call-MeetsEventChecks :
    (c : StoreCall) (t : EventTables) → MeetsEventChecks t → MeetsEventChecks (call c t)
call-MeetsEventChecks c t h = step-MeetsEventChecks (call-EventStep c t) h

-- Every sequence of claims, completions, limit checks and releases, by any workers in any order and
-- with any identifiers, keeps the primary key of the events and the CHECK constraints on their
-- claim, their two abuse decisions and their processing state.
pub run_calls-MeetsEventChecks :
    (cs : List StoreCall) (t : EventTables) → MeetsEventChecks t → MeetsEventChecks (run_calls cs t)
unfolding run_calls
run_calls-MeetsEventChecks [] t h = h
run_calls-MeetsEventChecks (c ∷ cs) t h =
    run_calls-MeetsEventChecks cs (call c t) (call-MeetsEventChecks c t h)
