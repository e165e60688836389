-- ===== src/Outbox/Tests.antt =====
-- Runs of the outbox on concrete tables: packages/adapters/src/postgres/outbox-store.ts and
-- packages/domain/src/outbox/outbox-delivery.ts.
use xpens_go.Prelude.{
  All, Bool, List, [], arith, contains, false, length, map, none, refl, some, true, ◌+◌, ◌∷◌, ◌≡◌,
  ◌≤◌,
}
use xpens_go.Effect.{Effect, Result, err, ok}
use xpens_go.Outbox.Checks.{IsConsistent}
use xpens_go.Outbox.ClaimPending.{
  acknowledge, candidates, claim_pending, comes_before, exhaust, insert_ordered, is_eligible, lease,
  order_by, reopen_stalled, returning, settle,
}
use xpens_go.Outbox.ClaimPending.Batch.{claims}
use xpens_go.Outbox.ClaimPending.Bounds.{IsWithin, claim_pending_bounds}
use xpens_go.Outbox.Dispatch.{
  dispatch_input, dispatch_pending_outbox, handle_message, retry_delay_seconds, was_deferred,
}
use xpens_go.Outbox.Dispatch.Postgres.{
  IsSettled, Queue, Reports, World, cloudflare, console, handle_message-IsSettled, postgres,
}
use xpens_go.Outbox.Dispatch.Retry.{retry_delay_seconds_lem}
use xpens_go.Outbox.History.{claim, consume, execute, fresh_message, history, insert, recover}
use xpens_go.Outbox.History.Consistency.{history-IsConsistent}
use xpens_go.Outbox.History.Leases.{leased_excludes}
use xpens_go.Outbox.History.Receipts.{consumed_never_claimed}
use xpens_go.Outbox.History.Superseded.{superseded_reports}
use xpens_go.Outbox.Rows.{OutboxMessage, OutboxTables, has_receipt, message_id, published}
use xpens_go.Outbox.Transitions.{
  is_recoverable, mark_published, owns_claim, record_consumption, record_publication_failure,
  recover_failed_publication, set_recovered,
}
use xpens_go.Outbox.Transitions.Consumption.{consumption_answer, record_consumption_lem}
use xpens_go.Outbox.Types.{
  ClaimedOutboxPublication, OutboxClaimId, OutboxDispatchSummary, OutboxError, OutboxMessageId,
  RecordOutboxPublicationFailureInput, mark_outbox_published, publication_outcome_unknown,
  queue_unavailable, record_outbox_publication_failure, retry, state_conflict,
}

abbrev draw : OutboxMessageId → OutboxClaimId
draw id = id + 100

abbrev nothing_locked : OutboxMessageId → Bool
nothing_locked id = false

abbrev empty_tables : OutboxTables
empty_tables = record { messages = []; receipts = [] }

abbrev one_pending : OutboxTables
one_pending = record { messages = fresh_message 0 1 7 ∷ []; receipts = [] }

abbrev leased_message : OutboxMessage
leased_message = record (fresh_message 0 1 7) {
  publish_attempts = 1;
  publish_claim_id = some 101;
  publish_claimed_until = some 121000;
}

abbrev one_leased : OutboxTables
one_leased = record { messages = leased_message ∷ []; receipts = [] }

abbrev first_claim : ClaimedOutboxPublication
first_claim = record { outbox_message_id = 1; claim_id = 101; correlation_id = 7; attempt = 1 }

abbrev one_consumed : OutboxTables
one_consumed = record {
  messages = leased_message ∷ [];
  receipts =
      record {
        outbox_message_id = 1;
        consumed_at = 5;
        delivery_attempts = 1;
        last_delivered_at = 5;
      }
      ∷ [];
}

abbrev lost_answer : Queue
lost_answer id correlation now = (err (publication_outcome_unknown id), now + 50)

abbrev at_noon : World
at_noon = record { tables = one_leased; clock = 2000; events = [] }

first_batch :
    claim_pending draw nothing_locked 1000 dispatch_input one_pending
    ≡ (ok (first_claim ∷ []), one_leased)
unfolding claim_pending acknowledge reopen_stalled exhaust settle is_eligible comes_before
    insert_ordered order_by candidates lease returning
first_batch = refl

empty-IsConsistent : IsConsistent empty_tables
empty-IsConsistent = record { checks = tt; positive = tt; message_keys = tt; receipt_keys = tt }

one_leased-IsConsistent : IsConsistent one_leased
one_leased-IsConsistent = record {
  checks = ((refl, refl), tt);
  positive = tt;
  message_keys = (refl, tt);
  receipt_keys = tt;
}

history-IsConsistent_example : IsConsistent (
    history
      (insert 0 1 7 ∷ claim draw nothing_locked 1000 dispatch_input ∷ consume 1500 1 ∷ [])
      empty_tables)
history-IsConsistent_example =
    history-IsConsistent
      (insert 0 1 7 ∷ claim draw nothing_locked 1000 dispatch_input ∷ consume 1500 1 ∷ [])
      empty_tables empty-IsConsistent

claim_of_consumed :
    claim_pending draw nothing_locked 200000 dispatch_input
      (history (recover 9 1 ∷ []) one_consumed)
    ≡ (
      ok [],
      record one_consumed {
        messages =
            record leased_message {
              status = published;
              published_at = some 5;
              publish_claim_id = none;
              publish_claimed_until = none;
            }
            ∷ [];
      },
    )
unfolding history execute recover_failed_publication is_recoverable set_recovered claim_pending
    acknowledge reopen_stalled exhaust settle is_eligible comes_before insert_ordered order_by
    candidates lease returning
claim_of_consumed = refl

consumed_never_claimed_example : claims [] 1 ≡ false
consumed_never_claimed_example =
    consumed_never_claimed (recover 9 1 ∷ []) one_consumed _ 1 draw nothing_locked 200000
      dispatch_input [] refl claim_of_consumed

second_batch :
    claim_pending draw nothing_locked 60000 dispatch_input (history (recover 9 1 ∷ []) one_leased)
    ≡ (ok [], one_leased)
unfolding history execute recover_failed_publication is_recoverable set_recovered claim_pending
    acknowledge reopen_stalled exhaust settle is_eligible comes_before insert_ordered order_by
    candidates lease returning
second_batch = refl

leased_excludes_example : claims [] 1 ≡ false
leased_excludes_example =
    leased_excludes draw draw nothing_locked nothing_locked 1000 60000 dispatch_input dispatch_input
      one_pending one_leased one_leased (first_claim ∷ []) [] 1 (recover 9 1 ∷ []) (refl, tt)
      first_batch refl (tt, tt) (omega arith) second_batch

claim_pending_bounds_example :
    (length (first_claim ∷ []) ≤ 10) × All (IsWithin dispatch_input) (first_claim ∷ [])
claim_pending_bounds_example =
    claim_pending_bounds draw nothing_locked 1000 dispatch_input one_pending one_leased
      (first_claim ∷ []) (refl, tt) first_batch

first_claim-owned : owns_claim 1 101 leased_message ≡ true
unfolding owns_claim
first_claim-owned = refl

handle_message-IsSettled_example :
    ((handle_message
        (postgres draw nothing_locked)
        (cloudflare lost_answer)
        console
        first_claim
        at_noon).0
      ≡ ok was_deferred)
    × Reports 1
        (IsSettled 2050 first_claim (err (publication_outcome_unknown 1)))
        one_leased
        (handle_message
          (postgres draw nothing_locked)
          (cloudflare lost_answer)
          console
          first_claim
          at_noon).1.tables
handle_message-IsSettled_example =
    handle_message-IsSettled draw nothing_locked lost_answer at_noon first_claim leased_message refl
      first_claim-owned

abbrev late_failure : RecordOutboxPublicationFailureInput
late_failure = record {
  outbox_message_id = 1;
  claim_id = 55;
  error_code = queue_unavailable;
  retry_delay_seconds = 30;
  disposition = retry;
}

record_consumption_lem_example :
    ((record_consumption 9 1 one_leased).0 ≡ ok (consumption_answer one_leased 1))
    × ((record_consumption 9 1 one_leased).1.messages ≡ leased_message ∷ [])
    × (contains (map message_id (leased_message ∷ [])) 1 ≡ true
        → has_receipt (record_consumption 9 1 one_leased).1.receipts 1 ≡ true)
record_consumption_lem_example = record_consumption_lem 9 1 one_leased one_leased-IsConsistent

retry_delay_seconds_lem_example :
    (retry_delay_seconds 3 ≡ 120) × (30 ≤ retry_delay_seconds 3) × (retry_delay_seconds 3 ≤ 3600)
retry_delay_seconds_lem_example = retry_delay_seconds_lem 2

abbrev lost_summary : OutboxDispatchSummary
lost_summary = record { claimed = 1; published = 0; deferred = 1; failed = 0 }

abbrev morning : World
morning = record { tables = one_pending; clock = 1000; events = [] }

abbrev lost_dispatch : Result OutboxError OutboxDispatchSummary × World
lost_dispatch =
    dispatch_pending_outbox (postgres draw nothing_locked) (cloudflare lost_answer) console morning

abbrev claim_pending_in : Effect World OutboxError (List ClaimedOutboxPublication)
claim_pending_in = (postgres draw nothing_locked).claim_pending dispatch_input

superseded_reports_example :
    (mark_published 60000
        (record { outbox_message_id = 1; claim_id = 55 })
        (history (recover 9 1 ∷ []) one_leased)
      ≡ (err (state_conflict mark_outbox_published 1), history (recover 9 1 ∷ []) one_leased))
    × (record_publication_failure 60000 late_failure (history (recover 9 1 ∷ []) one_leased) ≡ (
      err (state_conflict record_outbox_publication_failure 1),
      history (recover 9 1 ∷ []) one_leased,
    ))
superseded_reports_example =
    superseded_reports draw nothing_locked 1000 60000 dispatch_input one_pending one_leased
      (first_claim ∷ []) (recover 9 1 ∷ []) late_failure (refl, tt) first_batch refl (tt, tt) refl
