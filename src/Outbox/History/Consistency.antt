-- ===== src/Outbox/History/Consistency.antt =====
-- No operation of packages/adapters/src/postgres/outbox-store.ts breaks a constraint of the tables.
use xpens_go.Prelude.{
  All, All-map, Bool, Bool-cases, List, Option, Option-cases, [], arith, contains, false, inl, inr,
  map, none, refl, some, ℕ, ◌∷◌, ◌≡◌,
}
use xpens_go.Effect.{commit}
use xpens_go.Outbox.Checks.{IsConsistent, IsPositive, MeetsChecks}
use xpens_go.Outbox.ClaimPending.{candidates, claim_pending, claimed_or_unavailable, settle}
use xpens_go.Outbox.ClaimPending.Batch.{lease_if-KeepsKey, settle-KeepsKey}
use xpens_go.Outbox.History.{
  Operation, claim, consume, execute, failure, history, insert, insert_message, mark, recover,
}
use xpens_go.Outbox.History.RowChecks.{
  lease_if-MeetsChecks, owned-set_failure-MeetsChecks, owned-set_published-MeetsChecks,
  set_recovered-MeetsChecks, settle-MeetsChecks,
}
use xpens_go.Outbox.Rows.{OutboxMessage, OutboxMessageReceipt, OutboxTables, message_id, receipt_id}
use xpens_go.Outbox.Transitions.{
  mark_published, record_consumption, record_publication_failure, recover_failed_publication,
  redeliver, set_failure, set_published, set_recovered, upsert_receipt,
}
use xpens_go.Outbox.Transitions.Laws.{resolve_claim_transition-tables}
use xpens_go.Outbox.Types.{
  ClaimPendingOutboxInput, ClaimedOutboxPublication, CorrelationId, MarkOutboxPublishedInput,
  OutboxClaimId, OutboxMessageId, RecordOutboxPublicationFailureInput,
}
use xpens_go.Table.{HasUniqueKeys, KeepsKey, select}
use xpens_go.Table.Laws.{HasUniqueKeys-map, HasUniqueKeys-update, update-All}

claimed_or_unavailable-commit :
    (t t' : OutboxTables) (batch : Option (List ClaimedOutboxPublication))
    → IsConsistent t
    → IsConsistent t'
    → IsConsistent (commit t (claimed_or_unavailable t' batch)).1
claimed_or_unavailable-commit t t' none h h' = h
claimed_or_unavailable-commit t t' (some batch) h h' = h'

claim_pending-IsConsistent :
    (uuid : OutboxMessageId → OutboxClaimId) (locked : OutboxMessageId → Bool) (now : ℕ)
    (input : ClaimPendingOutboxInput) (t : OutboxTables)
    → IsConsistent t
    → IsConsistent (claim_pending uuid locked now input t).1
unfolding claim_pending
claim_pending-IsConsistent uuid locked now input t h =
    let settled = map (settle now input t.receipts) t.messages in
    let keys : HasUniqueKeys message_id settled =
      HasUniqueKeys-map message_id _ (settle-KeepsKey now input t.receipts) t.messages
        h.message_keys in
    let chosen = candidates now locked input settled in
    claimed_or_unavailable-commit t _ _ h (record {
      checks = lease_if-MeetsChecks uuid locked now input settled keys (
          All-map MeetsChecks MeetsChecks _ t.messages (settle-MeetsChecks now input t.receipts)
            h.checks);
      positive = h.positive;
      message_keys =
          HasUniqueKeys-map message_id _ (lease_if-KeepsKey uuid now input chosen) settled keys;
      receipt_keys = h.receipt_keys;
    })

-- A statement that rewrites single rows keeps the tables consistent if it keeps each row's checks.
map-IsConsistent :
    (f : OutboxMessage → OutboxMessage) (t : OutboxTables)
    → KeepsKey message_id f
    → ((m : OutboxMessage) → MeetsChecks m → MeetsChecks (f m))
    → IsConsistent t
    → IsConsistent (record t { messages = map f t.messages })
map-IsConsistent f t key keep h = record {
  checks = All-map MeetsChecks MeetsChecks f t.messages keep h.checks;
  positive = h.positive;
  message_keys = HasUniqueKeys-map message_id f key t.messages h.message_keys;
  receipt_keys = h.receipt_keys;
}

mark_published-IsConsistent :
    (now : ℕ) (input : MarkOutboxPublishedInput) (t : OutboxTables)
    → IsConsistent t
    → IsConsistent (mark_published now input t).1
unfolding mark_published
mark_published-IsConsistent now input t h = rw resolve_claim_transition-tables (
    map-IsConsistent _ t (λ m. unfold set_published in ground arith)
      (owned-set_published-MeetsChecks now input.outbox_message_id input.claim_id) h)

record_publication_failure-IsConsistent :
    (now : ℕ) (input : RecordOutboxPublicationFailureInput) (t : OutboxTables)
    → IsConsistent t
    → IsConsistent (record_publication_failure now input t).1
unfolding record_publication_failure
record_publication_failure-IsConsistent now input t h = rw resolve_claim_transition-tables (
    map-IsConsistent _ t (λ m. unfold set_failure in ground arith)
      (owned-set_failure-MeetsChecks now input) h)

recover-IsConsistent :
    (now : ℕ) (id : OutboxMessageId) (t : OutboxTables)
    → IsConsistent t
    → IsConsistent (recover_failed_publication now id t).1
unfolding recover_failed_publication
recover-IsConsistent now id t h =
    map-IsConsistent _ t (λ m. unfold set_recovered in ground arith)
      (set_recovered-MeetsChecks now t.receipts id) h

absent_of_select :
    (k : ℕ) (rs : List OutboxMessageReceipt)
    → select receipt_id k rs ≡ none
    → contains (map receipt_id rs) k ≡ false
absent_of_select k [] e = refl
absent_of_select k (r ∷ rs) e = ground (arith, absent_of_select k rs)

upsert_receipt-keeps :
    (now : ℕ) (id : OutboxMessageId) (rs : List OutboxMessageReceipt)
    → All IsPositive rs
    → HasUniqueKeys receipt_id rs
    → All IsPositive (upsert_receipt now id rs).1
      × HasUniqueKeys receipt_id (upsert_receipt now id rs).1
unfolding upsert_receipt
upsert_receipt-keeps now id rs p u = elim (Option-cases (select receipt_id id rs)) [
  | inl absent ↦ rw (absent, upsert_receipt) ((refl, p), (absent_of_select id rs absent, u))
  | inr (r, found) ↦
      rw (found, upsert_receipt)
        (
          update-All receipt_id IsPositive id (redeliver now) rs
              (λ x hx. unfold redeliver in ground arith) p,
          HasUniqueKeys-update receipt_id id (redeliver now) (λ x. unfold redeliver in refl) rs u,
        )
]

consume-IsConsistent :
    (now : ℕ) (id : OutboxMessageId) (t : OutboxTables)
    → IsConsistent t
    → IsConsistent (record_consumption now id t).1
unfolding record_consumption
consume-IsConsistent now id t h = elim (Option-cases (select message_id id t.messages)) [
  | inl absent ↦ rw (absent, record_consumption) h
  | inr (m, found) ↦
      let (p, u) = upsert_receipt-keeps now id t.receipts h.positive h.receipt_keys in
      rw (found, record_consumption)
        (record {
          checks = h.checks;
          positive = p;
          message_keys = h.message_keys;
          receipt_keys = u;
        })
]

insert_message-IsConsistent :
    (now : ℕ) (id : OutboxMessageId) (correlation : CorrelationId) (t : OutboxTables)
    → IsConsistent t
    → IsConsistent (insert_message now id correlation t)
unfolding insert_message
insert_message-IsConsistent now id correlation t h =
    elim (Bool-cases (contains (map message_id t.messages) id)) [
      | inl taken ↦ rw taken h
      | inr free ↦ rw free (record {
        checks = ((refl, refl), h.checks);
        positive = h.positive;
        message_keys = (free, h.message_keys);
        receipt_keys = h.receipt_keys;
      })
    ]

-- Every outbox operation, on any tables that meet the constraints, leaves tables that meet them.
pub execute-IsConsistent :
    (o : Operation) (t : OutboxTables) → IsConsistent t → IsConsistent (execute o t)
unfolding execute
execute-IsConsistent (insert now id correlation) t h =
    insert_message-IsConsistent now id correlation t h
execute-IsConsistent (claim uuid locked now input) t h =
    claim_pending-IsConsistent uuid locked now input t h
execute-IsConsistent (mark now input) t h = mark_published-IsConsistent now input t h
execute-IsConsistent (failure now input) t h = record_publication_failure-IsConsistent now input t h
execute-IsConsistent (consume now id) t h = consume-IsConsistent now id t h
execute-IsConsistent (recover now id) t h = recover-IsConsistent now id t h

-- Whatever sequence of outbox operations runs on consistent tables, they keep every modelled CHECK
-- constraint and both primary keys.
pub history-IsConsistent :
    (os : List Operation) (t : OutboxTables) → IsConsistent t → IsConsistent (history os t)
unfolding history
history-IsConsistent [] t h = h
history-IsConsistent (o ∷ os) t h =
    history-IsConsistent os (execute o t) (execute-IsConsistent o t h)
