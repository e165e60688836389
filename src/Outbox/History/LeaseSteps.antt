-- ===== src/Outbox/History/LeaseSteps.antt =====
-- The operations of packages/adapters/src/postgres/outbox-store.ts that leave a lease alone.
use xpens_go.Prelude.{
  ==_iff, All, All-map, All-mono, Bool, Bool-cases, List, Option-cases, [], arith, contains, false,
  inl, inr, map, subst, sym, true, ℕ, ◌<◌, ◌==◌, ◌∷◌, ◌≡◌,
}
use xpens_go.Outbox.ClaimPending.{candidates, lease_if, settle}
use xpens_go.Outbox.ClaimPending.Batch.{claim_pending-cases, lease_if-KeepsKey, settle-KeepsKey}
use xpens_go.Outbox.ClaimPending.Candidates.{ineligible-candidates}
use xpens_go.Outbox.History.{
  Operation, claim, consume, execute, failure, history, insert, insert_message, mark, recover,
}
use xpens_go.Outbox.History.Leased.{
  Holds, IsLeased, Spares, leased-settle, unleased-is_eligible, upsert_receipt-other,
}
use xpens_go.Outbox.Rows.{OutboxMessage, OutboxTables, has_receipt, message_id}
use xpens_go.Outbox.Transitions.{
  is_recoverable, mark_published, owns_claim, record_consumption, record_publication_failure,
  recover_failed_publication, set_failure, set_published, set_recovered,
}
use xpens_go.Outbox.Transitions.Laws.{resolve_claim_transition-tables}
use xpens_go.Outbox.Types.{ClaimPendingOutboxInput, OutboxClaimId, OutboxMessageId}
use xpens_go.Table.{KeepsKey, select}
use xpens_go.Table.Laws.{map-key_KeepsKey}

module _ (k : OutboxMessageId) (c : OutboxClaimId) (u : ℕ) where
  -- A statement that rewrites rows by their key keeps the lease if it spares the leased row.
  map-IsLeased :
      (f : OutboxMessage → OutboxMessage) (t : OutboxTables)
      → KeepsKey message_id f
      → ((m : OutboxMessage) → Holds k c u m → Holds k c u (f m))
      → IsLeased k c u t
      → IsLeased k c u (record t { messages = map f t.messages })
  map-IsLeased f t key keep h = record {
    known = rw (map-key_KeepsKey message_id f key t.messages) h.known;
    unconsumed = h.unconsumed;
    leased = All-map (Holds k c u) (Holds k c u) f t.messages keep h.leased;
  }

  settle-IsLeased :
      (now : ℕ) (input : ClaimPendingOutboxInput) (t : OutboxTables)
      → now < u
      → IsLeased k c u t
      → IsLeased k c u (record t { messages = map (settle now input t.receipts) t.messages })
  settle-IsLeased now input t early h =
      map-IsLeased (settle now input t.receipts) t (settle-KeepsKey now input t.receipts)
        (λ m hm same.
          let before : (m.id == k) ≡ true =
            ground (arith, settle-KeepsKey now input t.receipts m) in
          let held = hm before in
          let (kept, closed) =
            leased-settle now u input t.receipts m early
              (subst (λ x. has_receipt t.receipts x ≡ false) (sym ((==_iff m.id k).0 before))
                h.unconsumed)
              held.0 held.2 in
          rw kept held)
        h

  lease_if-IsLeased :
      (uuid : OutboxMessageId → OutboxClaimId) (locked : OutboxMessageId → Bool) (now : ℕ)
      (input : ClaimPendingOutboxInput) (t : OutboxTables)
      → now < u
      → IsLeased k c u t
      → IsLeased k c u (record t {
        messages =
            map (lease_if uuid now input (candidates now locked input t.messages)) t.messages;
      })
  lease_if-IsLeased uuid locked now input t early h =
      let chosen = candidates now locked input t.messages in
      let unchosen : contains chosen k ≡ false =
        ineligible-candidates now locked input t.messages k (
          All-mono (Holds k c u) _ t.messages
            (λ m hm same. unleased-is_eligible now u input m early (hm same).0 (hm same).2)
            h.leased) in
      map-IsLeased (lease_if uuid now input chosen) t (lease_if-KeepsKey uuid now input chosen)
        (λ m hm same.
          let before : (m.id == k) ≡ true =
            ground (arith, lease_if-KeepsKey uuid now input chosen m) in
          let absent : contains chosen m.id ≡ false =
            subst (λ x. contains chosen x ≡ false) (sym ((==_iff m.id k).0 before)) unchosen in
          rw absent (hm before))
        h

  consume-IsLeased :
      (now : ℕ) (id : OutboxMessageId) (t : OutboxTables)
      → (id == k) ≡ false
      → IsLeased k c u t
      → IsLeased k c u (record_consumption now id t).1
  unfolding record_consumption
  consume-IsLeased now id t s h = elim (Option-cases (select message_id id t.messages)) [
    | inl absent ↦ rw (absent, record_consumption) h
    | inr (m, found) ↦
        rw (found, record_consumption)
          (record {
            known = h.known;
            unconsumed = upsert_receipt-other now id t.receipts k s h.unconsumed;
            leased = h.leased;
          })
  ]

  -- Every operation that spares the claim leaves the message leased.
  pub execute-IsLeased :
      (o : Operation) (t : OutboxTables)
      → Spares k c u o
      → IsLeased k c u t
      → IsLeased k c u (execute o t)
  unfolding execute
  execute-IsLeased (insert now id correlation) t s h =
      elim (Bool-cases (contains (map message_id t.messages) id)) [
        | inl taken ↦ unfold insert_message in rw (taken, insert_message) h
        | inr free ↦
            let other : (id == k) ≡ false = elim (Bool-cases (id == k)) [
              | inl same ↦ ground (arith, ==_iff id k, h.known)
              | inr ne ↦ ne
            ] in
            unfold insert_message in
            rw (free, insert_message)
              (record {
                known = ground (arith, h.known);
                unconsumed = h.unconsumed;
                leased = ((λ same. cc), h.leased);
              })
      ]
  execute-IsLeased (claim uuid locked now input) t s h =
      elim (claim_pending-cases uuid locked now input t) [
        | inl same ↦ rw same h
        | inr changed ↦
            rw changed
              (lease_if-IsLeased uuid locked now input _ s (settle-IsLeased now input t s h))
      ]
  execute-IsLeased (mark now input) t s h =
      unfold mark_published in
      rw resolve_claim_transition-tables (
        map-IsLeased _ t (λ m. unfold set_published in ground arith)
          (λ m hm same. unfold owns_claim set_published in ground (arith, hm)) h)
  execute-IsLeased (failure now input) t s h =
      unfold record_publication_failure in
      rw resolve_claim_transition-tables (
        map-IsLeased _ t (λ m. unfold set_failure in ground arith)
          (λ m hm same. unfold owns_claim set_failure in ground (arith, hm)) h)
  execute-IsLeased (consume now id) t s h = consume-IsLeased now id t s h
  execute-IsLeased (recover now id) t s h =
      unfold recover_failed_publication in
      (map-IsLeased _ t (λ m. unfold set_recovered in ground arith)
        (λ m hm same. unfold is_recoverable set_recovered in ground (arith, hm)) h)

  pub history-IsLeased :
      (os : List Operation) (t : OutboxTables)
      → All (Spares k c u) os
      → IsLeased k c u t
      → IsLeased k c u (history os t)
  unfolding history
  history-IsLeased [] t s h = h
  history-IsLeased (o ∷ os) t (s, ss) h =
      history-IsLeased os (execute o t) ss (execute-IsLeased o t s h)
