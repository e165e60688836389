-- ===== src/Outbox/History/Leased.antt =====
-- A message that a dispatcher has leased, as `claimPending` of
-- packages/adapters/src/postgres/outbox-store.ts sees it.
use xpens_go.Prelude.{
  ==_iff, All, All-mono, Bool, List, Option-cases, arith, contains, false, inl, inr, map, some,
  subst, sym, true, ℕ, ◌<◌, ◌==◌, ◌≡◌,
}
use xpens_go.Effect.{ok}
use xpens_go.Outbox.ClaimPending.{
  acknowledge, claim_pending, exhaust, is_eligible, reopen_stalled, settle,
}
use xpens_go.Outbox.ClaimPending.Batch.{claims, ineligible-claims}
use xpens_go.Outbox.History.{Operation, claim, consume, failure, insert, mark, recover}
use xpens_go.Outbox.Rows.{
  OutboxMessage, OutboxMessageReceipt, OutboxTables, has_receipt, message_id, pending, receipt_id,
}
use xpens_go.Outbox.Transitions.{redeliver, upsert_receipt}
use xpens_go.Outbox.Transitions.Laws.{redeliver-KeepsKey}
use xpens_go.Outbox.Types.{
  ClaimPendingOutboxInput, ClaimedOutboxPublication, OutboxClaimId, OutboxMessageId,
}
use xpens_go.Table.{select}
use xpens_go.Table.Laws.{map-key-update, select-absent}

-- Message `k` is known, has no receipt, and its row is leased under claim `c` until `u`.
pub record IsLeased (k : OutboxMessageId) (c : OutboxClaimId) (u : ℕ) (t : OutboxTables)
    : Type 0 where
  pub known : contains (map message_id t.messages) k ≡ true
  pub unconsumed : has_receipt t.receipts k ≡ false
  pub leased :
      All
        (λ m.
          (m.id == k) ≡ true
          → (m.status ≡ pending)
            × (m.publish_claim_id ≡ some c)
            × (m.publish_claimed_until ≡ some u))
        t.messages

-- What may happen while the claim is held: dispatchers start before the lease ends, do not give
-- this claim back, and no consumer receives this message.
abbrev pub Spares : OutboxMessageId → OutboxClaimId → ℕ → Operation → Type 0
Spares k c u (claim uuid locked now input) = now < u
Spares k c u (mark now input) = (c == input.claim_id) ≡ false
Spares k c u (failure now input) = (c == input.claim_id) ≡ false
Spares k c u (consume now id) = (id == k) ≡ false
Spares k c u (insert now id correlation) = Unit
Spares k c u (recover now id) = Unit

abbrev pub Holds : OutboxMessageId → OutboxClaimId → ℕ → OutboxMessage → Type 0
Holds k c u m =
    (m.id == k) ≡ true
    → (m.status ≡ pending) × (m.publish_claim_id ≡ some c) × (m.publish_claimed_until ≡ some u)

-- The clean-up leaves a leased row as it is, and the row is not eligible.
pub leased-settle :
    (now u : ℕ) (input : ClaimPendingOutboxInput) (receipts : List OutboxMessageReceipt)
    (m : OutboxMessage)
    → now < u
    → has_receipt receipts m.id ≡ false
    → m.status ≡ pending
    → m.publish_claimed_until ≡ some u
    → (settle now input receipts m ≡ m) × (is_eligible now input m ≡ false)
unfolding settle acknowledge reopen_stalled exhaust is_eligible
leased-settle now u input receipts m early absent p l =
    ground (arith, select-absent receipt_id m.id receipts absent)

pub unleased-is_eligible :
    (now u : ℕ) (input : ClaimPendingOutboxInput) (m : OutboxMessage)
    → now < u
    → m.status ≡ pending
    → m.publish_claimed_until ≡ some u
    → is_eligible now input m ≡ false
unfolding is_eligible
unleased-is_eligible now u input m early p l = ground arith

-- While the lease lasts no dispatcher's batch holds the message.
pub leased-claims :
    (k : OutboxMessageId) (c : OutboxClaimId) (u : ℕ) (uuid : OutboxMessageId → OutboxClaimId)
    (locked : OutboxMessageId → Bool) (now : ℕ) (input : ClaimPendingOutboxInput)
    (t t' : OutboxTables) (batch : List ClaimedOutboxPublication)
    → IsLeased k c u t
    → now < u
    → claim_pending uuid locked now input t ≡ (ok batch, t')
    → claims batch k ≡ false
leased-claims k c u uuid locked now input t t' batch h early e =
    ineligible-claims uuid locked now input t t' batch k e (
      All-mono (Holds k c u) _ t.messages
        (λ m hm same.
          let held = hm same in
          let (kept, closed) =
            leased-settle now u input t.receipts m early
              (subst (λ x. has_receipt t.receipts x ≡ false) (sym ((==_iff m.id k).0 same))
                h.unconsumed)
              held.0 held.2 in
          rw kept closed)
        h.leased)

pub upsert_receipt-other :
    (now : ℕ) (id : OutboxMessageId) (rs : List OutboxMessageReceipt) (k : OutboxMessageId)
    → (id == k) ≡ false
    → has_receipt rs k ≡ false
    → has_receipt (upsert_receipt now id rs).1 k ≡ false
unfolding upsert_receipt
upsert_receipt-other now id rs k ne h = elim (Option-cases (select receipt_id id rs)) [
  | inl absent ↦ rw (absent, upsert_receipt) (ground (arith, h))
  | inr (r, found) ↦
      rw (found, upsert_receipt)
        (rw (map-key-update receipt_id id (redeliver now) (redeliver-KeepsKey now) rs) h)
]
