-- ===== src/Outbox/History/Leases.antt =====
-- A publication claim of packages/adapters/src/postgres/outbox-store.ts excludes other dispatchers
-- until its lease ends.
use xpens_go.Prelude.{
  ==_iff, All, All-map, Bool, Bool-cases, List, arith, contains, false, inl, inr, map, some, subst,
  sym, true, ℕ, ◌<◌, ◌==◌, ◌≡◌,
}
use xpens_go.Effect.{ok}
use xpens_go.Outbox.ClaimPending.{candidates, claim_pending, is_eligible, lease, lease_if, settle}
use xpens_go.Outbox.ClaimPending.Batch.{
  claim_pending-Claims, claims, claims-chosen, lease_if-KeepsKey, settle-KeepsKey,
}
use xpens_go.Outbox.ClaimPending.Candidates.{candidate-is_eligible, candidates_eligible}
use xpens_go.Outbox.ClaimPending.Receipts.{consumed-claims}
use xpens_go.Outbox.History.{Operation, history}
use xpens_go.Outbox.History.LeaseSteps.{history-IsLeased}
use xpens_go.Outbox.History.Leased.{IsLeased, Spares, leased-claims}
use xpens_go.Outbox.Rows.{
  OutboxMessage, OutboxTables, after_seconds, has_receipt, message_id, pending,
}
use xpens_go.Outbox.Types.{
  ClaimPendingOutboxInput, ClaimedOutboxPublication, OutboxClaimId, OutboxMessageId,
}
use xpens_go.Table.{HasUniqueKeys, select}
use xpens_go.Table.Laws.{HasUniqueKeys-map, contains-select, map-key_KeepsKey, select-own_All}

leased_row :
    (uuid : OutboxMessageId → OutboxClaimId) (now : ℕ) (input : ClaimPendingOutboxInput)
    (chosen : List OutboxMessageId) (k : OutboxMessageId) (m : OutboxMessage)
    → contains chosen k ≡ true
    → is_eligible now input m ≡ true
    → (m.id == k) ≡ true
    → (lease_if uuid now input chosen m).status ≡ pending
      × (lease_if uuid now input chosen m).publish_claim_id ≡ some (uuid k)
      × (lease_if uuid now input chosen m).publish_claimed_until
        ≡ some (after_seconds now input.lease_duration_seconds)
unfolding is_eligible lease
leased_row uuid now input chosen k m h e same =
    let here : contains chosen m.id ≡ true =
      subst (λ x. contains chosen x ≡ true) (sym ((==_iff m.id k).0 same)) h in
    rw here (ground (arith, ==_iff m.id k))

-- Claiming a message leases it to the claim that the batch reports.
pub claim_pending-IsLeased :
    (uuid : OutboxMessageId → OutboxClaimId) (locked : OutboxMessageId → Bool) (now : ℕ)
    (input : ClaimPendingOutboxInput) (t t' : OutboxTables) (batch : List ClaimedOutboxPublication)
    (k : OutboxMessageId)
    → HasUniqueKeys message_id t.messages
    → claim_pending uuid locked now input t ≡ (ok batch, t')
    → claims batch k ≡ true
    → IsLeased k (uuid k) (after_seconds now input.lease_duration_seconds) t'
claim_pending-IsLeased uuid locked now input t t' batch k unique e h =
    let settled = map (settle now input t.receipts) t.messages in
    let chosen = candidates now locked input settled in
    let keys : HasUniqueKeys message_id settled =
      HasUniqueKeys-map message_id _ (settle-KeepsKey now input t.receipts) t.messages unique in
    let parts = claim_pending-Claims uuid locked now input t t' batch e in
    let picked : contains chosen k ≡ true = elim (Bool-cases (contains chosen k)) [
      | inl listed ↦ listed
      | inr absent ↦ cc (claims-chosen uuid now input t t' chosen batch k parts absent)
    ] in
    let (m, found, open_row) = candidates_eligible now locked input settled k keys picked in
    record {
      known = rw parts.messages (
          rw
            (map-key_KeepsKey message_id (lease_if uuid now input chosen)
              (lease_if-KeepsKey uuid now input chosen) settled)
            (contains-select message_id k settled m found));
      unconsumed = rw parts.receipts (elim (Bool-cases (has_receipt t.receipts k)) [
        | inl consumed ↦ cc (consumed-claims uuid locked now input t t' batch k e consumed)
        | inr fresh ↦ fresh
      ]);
      leased = rw parts.messages (
          All-map (λ x. select message_id x.id settled ≡ some x) _ (lease_if uuid now input chosen)
            settled
            (λ x own same.
              let before : (x.id == k) ≡ true =
                ground (arith, lease_if-KeepsKey uuid now input chosen x) in
              let here : contains chosen x.id ≡ true =
                subst (λ y. contains chosen y ≡ true) (sym ((==_iff x.id k).0 before)) picked in
              leased_row uuid now input chosen k x picked
                (ground (arith, candidate-is_eligible now locked input settled x keys own here))
                before)
            (select-own_All message_id settled keys));
    }

-- On messages with unique identifiers, a message that one dispatcher has claimed is in no other
-- dispatcher's batch before the lease ends: whatever operations come in between, as long as
-- dispatchers among them start before the lease ends, none of them gives this claim back, and no
-- consumer receives the message.
pub leased_excludes :
    (uuid uuid' : OutboxMessageId → OutboxClaimId) (locked locked' : OutboxMessageId → Bool)
    (now now' : ℕ) (input input' : ClaimPendingOutboxInput) (t t' t'' : OutboxTables)
    (batch batch' : List ClaimedOutboxPublication) (k : OutboxMessageId) (os : List Operation)
    → HasUniqueKeys message_id t.messages
    → claim_pending uuid locked now input t ≡ (ok batch, t')
    → claims batch k ≡ true
    → All (Spares k (uuid k) (after_seconds now input.lease_duration_seconds)) os
    → now' < after_seconds now input.lease_duration_seconds
    → claim_pending uuid' locked' now' input' (history os t') ≡ (ok batch', t'')
    → claims batch' k ≡ false
leased_excludes uuid uuid' locked locked' now now' input input' t t' t'' batch batch' k os unique e
      h s early e' =
    let u = after_seconds now input.lease_duration_seconds in
    leased-claims k (uuid k) u uuid' locked' now' input' (history os t') t'' batch'
      (history-IsLeased k (uuid k) u os t' s
        (claim_pending-IsLeased uuid locked now input t t' batch k unique e h))
      early e'
