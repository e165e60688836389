-- ===== src/Outbox/ClaimPending/Batch.antt =====
-- The batch that `claimPending` returns.
use xpens_go.Prelude.{
  ==_iff, All, All-map, All-of, Bool, List, Option-cases, [], arith, contains, false, filter, inl,
  inr, map, some, subst, sym, true, ℕ, ◌==◌, ◌∙◌, ◌∷◌, ◌≡◌, ◌⊎◌,
}
use xpens_go.Effect.{ok}
use xpens_go.Outbox.ClaimPending.{
  acknowledge, candidates, claim_pending, exhaust, is_eligible, lease, lease_if, reopen_stalled,
  returning, settle,
}
use xpens_go.Outbox.ClaimPending.Candidates.{ineligible-candidates}
use xpens_go.Outbox.Rows.{OutboxMessage, OutboxMessageReceipt, OutboxTables, message_id}
use xpens_go.Outbox.Types.{
  ClaimPendingOutboxInput, ClaimedOutboxPublication, OutboxClaimId, OutboxMessageId,
}
use xpens_go.Table.{KeepsKey}
use xpens_go.Table.Laws.{contains-filter_none}

pub settle-KeepsKey :
    (now : ℕ) (input : ClaimPendingOutboxInput) (receipts : List OutboxMessageReceipt)
    → KeepsKey message_id (settle now input receipts)
unfolding settle acknowledge reopen_stalled exhaust
settle-KeepsKey now input receipts m = ground arith

pub lease_if-KeepsKey :
    (uuid : OutboxMessageId → OutboxClaimId) (now : ℕ) (input : ClaimPendingOutboxInput)
    (chosen : List OutboxMessageId)
    → KeepsKey message_id (lease_if uuid now input chosen)
unfolding lease
lease_if-KeepsKey uuid now input chosen m = ground arith

abbrev pub claim_of : ClaimedOutboxPublication → OutboxMessageId
claim_of c = c.outbox_message_id

-- Whether a batch holds a claim of a message.
abbrev pub claims : List ClaimedOutboxPublication → OutboxMessageId → Bool
claims batch k = contains (map claim_of batch) k

returning-claims :
    (uuid : OutboxMessageId → OutboxClaimId) (ms : List OutboxMessage)
    (batch : List ClaimedOutboxPublication) (k : OutboxMessageId)
    → returning uuid ms ≡ some batch
    → claims batch k ≡ contains (map message_id ms) k
unfolding returning
returning-claims uuid [] batch k e = ground arith
returning-claims uuid (m ∷ ms) batch k e = elim (Option-cases (returning uuid ms)) [
  | inl undecoded ↦ ground arith
  | inr (rest, found) ↦ ground (arith, returning-claims uuid ms rest k found)
]

-- A successful `claimPending`, taken apart.
pub record Claims (uuid : OutboxMessageId → OutboxClaimId) (now : ℕ)
    (input : ClaimPendingOutboxInput) (t t' : OutboxTables) (chosen : List OutboxMessageId)
    (batch : List ClaimedOutboxPublication) : Type 0 where
  pub messages :
      t'.messages
      ≡ map (lease_if uuid now input chosen) (map (settle now input t.receipts) t.messages)
  pub receipts : t'.receipts ≡ t.receipts
  pub returned : returning uuid (filter (λ m. contains chosen m.id) t'.messages) ≡ some batch

pub claim_pending-Claims :
    (uuid : OutboxMessageId → OutboxClaimId) (locked : OutboxMessageId → Bool) (now : ℕ)
    (input : ClaimPendingOutboxInput) (t t' : OutboxTables) (batch : List ClaimedOutboxPublication)
    → claim_pending uuid locked now input t ≡ (ok batch, t')
    → Claims uuid now input t t'
        (candidates now locked input (map (settle now input t.receipts) t.messages))
        batch
unfolding claim_pending
claim_pending-Claims uuid locked now input t t' batch e =
    let settled = map (settle now input t.receipts) t.messages in
    let chosen = candidates now locked input settled in
    let leased = map (lease_if uuid now input chosen) settled in
    elim (Option-cases (returning uuid (filter (λ m. contains chosen m.id) leased))) [
      | inl undecoded ↦ ground arith
      | inr (rest, found) ↦ ground arith
    ]

-- Every message of the batch was a candidate.
pub claims-chosen :
    (uuid : OutboxMessageId → OutboxClaimId) (now : ℕ) (input : ClaimPendingOutboxInput)
    (t t' : OutboxTables) (chosen : List OutboxMessageId) (batch : List ClaimedOutboxPublication)
    (k : OutboxMessageId)
    → Claims uuid now input t t' chosen batch
    → contains chosen k ≡ false
    → claims batch k ≡ false
claims-chosen uuid now input t t' chosen batch k c absent =
    returning-claims uuid _ batch k c.returned
    ∙ contains-filter_none message_id (λ m. contains chosen m.id) k t'.messages
        (All-of _ t'.messages
          (λ m same. subst (λ x. contains chosen x ≡ false) (sym ((==_iff m.id k).0 same)) absent))

-- A message none of whose rows is eligible is not in the batch.
pub ineligible-claims :
    (uuid : OutboxMessageId → OutboxClaimId) (locked : OutboxMessageId → Bool) (now : ℕ)
    (input : ClaimPendingOutboxInput) (t t' : OutboxTables) (batch : List ClaimedOutboxPublication)
    (k : OutboxMessageId)
    → claim_pending uuid locked now input t ≡ (ok batch, t')
    → All
        (λ m. (m.id == k) ≡ true → is_eligible now input (settle now input t.receipts m) ≡ false)
        t.messages
    → claims batch k ≡ false
ineligible-claims uuid locked now input t t' batch k e h =
    claims-chosen uuid now input t t' _ batch k
      (claim_pending-Claims uuid locked now input t t' batch e)
      (ineligible-candidates now locked input _ k (
        All-map _ _ _ t.messages
          (λ m hm same. hm (ground (arith, settle-KeepsKey now input t.receipts m))) h))

pub claim_pending-receipts :
    (uuid : OutboxMessageId → OutboxClaimId) (locked : OutboxMessageId → Bool) (now : ℕ)
    (input : ClaimPendingOutboxInput) (t : OutboxTables)
    → (claim_pending uuid locked now input t).1.receipts ≡ t.receipts
unfolding claim_pending
claim_pending-receipts uuid locked now input t = ground arith

-- After `claimPending` the messages are as before, or settled and leased.
pub claim_pending-cases :
    (uuid : OutboxMessageId → OutboxClaimId) (locked : OutboxMessageId → Bool) (now : ℕ)
    (input : ClaimPendingOutboxInput) (t : OutboxTables)
    → let settled = map (settle now input t.receipts) t.messages in
      ((claim_pending uuid locked now input t).1 ≡ t)
      ⊎ ((claim_pending uuid locked now input t).1 ≡ record t {
        messages = map (lease_if uuid now input (candidates now locked input settled)) settled;
      })
unfolding claim_pending
claim_pending-cases uuid locked now input t = ground arith
