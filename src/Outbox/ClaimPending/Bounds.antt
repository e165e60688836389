-- ===== src/Outbox/ClaimPending/Bounds.antt =====
-- How large a batch is, and which attempts it holds.
use xpens_go.Prelude.{
  All, All-filter, All-map, Bool, List, Option-cases, [], arith, contains, filter, inl, inr, length,
  length-map, length-take, map, not, refl, some, subst, take, true, ℕ, ◌&&◌, ◌<◌, ◌∷◌, ◌≡◌, ◌≤◌,
}
use xpens_go.Effect.{ok}
use xpens_go.Outbox.ClaimPending.{
  candidates, claim_pending, is_eligible, lease, lease_if, order_by, returning, settle,
}
use xpens_go.Outbox.ClaimPending.Batch.{claim_pending-Claims, lease_if-KeepsKey, settle-KeepsKey}
use xpens_go.Outbox.ClaimPending.Candidates.{candidate-is_eligible}
use xpens_go.Outbox.Rows.{OutboxMessage, OutboxTables, message_id}
use xpens_go.Outbox.Types.{
  ClaimPendingOutboxInput, ClaimedOutboxPublication, OutboxClaimId, OutboxMessageId,
}
use xpens_go.Table.{HasUniqueKeys, select}
use xpens_go.Table.Laws.{HasUniqueKeys-map, length-filter-contains, select-own_All}

abbrev ClaimOf :
    (OutboxMessageId → OutboxClaimId) → OutboxMessage → ClaimedOutboxPublication → Type 0
ClaimOf uuid m c =
    (c.outbox_message_id ≡ m.id)
    × (c.claim_id ≡ uuid m.id)
    × (c.attempt ≡ m.publish_attempts)
    × (m.correlation_id ≡ some c.correlation_id)

-- What holds of the claim that each row gives holds of the batch.
returning-All :
    (uuid : OutboxMessageId → OutboxClaimId) (Q : ClaimedOutboxPublication → Type 0)
    (ms : List OutboxMessage) (batch : List ClaimedOutboxPublication)
    → All (λ m. (c : ClaimedOutboxPublication) → ClaimOf uuid m c → Q c) ms
    → returning uuid ms ≡ some batch
    → All Q batch
unfolding returning
returning-All uuid Q [] [] h e = tt
returning-All uuid Q [] (c ∷ cs) h e = absurd (ground arith)
returning-All uuid Q (m ∷ ms) batch (here, h) e = elim (Option-cases m.correlation_id) [
  | inl unknown ↦ absurd (ground arith)
  | inr (correlation, decoded) ↦ elim (Option-cases (returning uuid ms)) [
    | inl undecoded ↦ absurd (ground arith)
    | inr (rest, found) ↦
        let c : ClaimedOutboxPublication = record {
          outbox_message_id = m.id;
          claim_id = uuid m.id;
          correlation_id = correlation;
          attempt = m.publish_attempts;
        } in
        let same : c ∷ rest ≡ batch = ground arith in
        subst (All Q) same
          (here c (refl, refl, refl, decoded), returning-All uuid Q ms rest h found)
  ]
]

length-returning :
    (uuid : OutboxMessageId → OutboxClaimId) (ms : List OutboxMessage)
    (batch : List ClaimedOutboxPublication)
    → returning uuid ms ≡ some batch
    → length batch ≡ length ms
unfolding returning
length-returning uuid [] batch e = ground arith
length-returning uuid (m ∷ ms) batch e = elim (Option-cases (returning uuid ms)) [
  | inl undecoded ↦ ground arith
  | inr (rest, found) ↦ ground (arith, length-returning uuid ms rest found)
]

length-candidates :
    (now : ℕ) (locked : OutboxMessageId → Bool) (input : ClaimPendingOutboxInput)
    (ms : List OutboxMessage)
    → length (candidates now locked input ms) ≤ input.limit
unfolding candidates
length-candidates now locked input ms =
    let rows =
      take input.limit (order_by (filter (λ m. is_eligible now input m && not (locked m.id)) ms)) in
    omega (
      arith,
      length-map rows message_id,
      length-take input.limit
          (order_by (filter (λ m. is_eligible now input m && not (locked m.id)) ms)),
    )

leased_attempt :
    (uuid : OutboxMessageId → OutboxClaimId) (now : ℕ) (input : ClaimPendingOutboxInput)
    (chosen : List OutboxMessageId) (m : OutboxMessage)
    → contains chosen m.id ≡ true
    → is_eligible now input m ≡ true
    → (0 < (lease_if uuid now input chosen m).publish_attempts)
      × ((lease_if uuid now input chosen m).publish_attempts ≤ input.maximum_attempts)
unfolding is_eligible lease
leased_attempt uuid now input chosen m h e = rw h (ground arith)

abbrev pub IsWithin : ClaimPendingOutboxInput → ClaimedOutboxPublication → Type 0
IsWithin input c = (0 < c.attempt) × (c.attempt ≤ input.maximum_attempts)

-- On messages with unique identifiers, a batch is no longer than its limit, and each of its claims
-- is a first to a last permitted attempt.
pub claim_pending_bounds :
    (uuid : OutboxMessageId → OutboxClaimId) (locked : OutboxMessageId → Bool) (now : ℕ)
    (input : ClaimPendingOutboxInput) (t t' : OutboxTables) (batch : List ClaimedOutboxPublication)
    → HasUniqueKeys message_id t.messages
    → claim_pending uuid locked now input t ≡ (ok batch, t')
    → (length batch ≤ input.limit) × All (IsWithin input) batch
claim_pending_bounds uuid locked now input t t' batch unique e =
    let settled = map (settle now input t.receipts) t.messages in
    let chosen = candidates now locked input settled in
    let keys : HasUniqueKeys message_id settled =
      HasUniqueKeys-map message_id _ (settle-KeepsKey now input t.receipts) t.messages unique in
    let leased = map (lease_if uuid now input chosen) settled in
    let leased_keys : HasUniqueKeys message_id leased =
      HasUniqueKeys-map message_id _ (lease_if-KeepsKey uuid now input chosen) settled keys in
    let parts = claim_pending-Claims uuid locked now input t t' batch e in
    let returned : returning uuid (filter (λ m. contains chosen m.id) leased) ≡ some batch =
      rw parts.messages at parts.returned in
    (
      omega (
        arith,
        length-returning uuid _ batch returned,
        length-filter-contains message_id chosen leased leased_keys,
        length-candidates now locked input settled,
      ),
      returning-All uuid (IsWithin input) _ batch
          (All-filter _ (λ m. contains chosen m.id) leased
            (All-map (λ x. select message_id x.id settled ≡ some x) _
              (lease_if uuid now input chosen) settled
              (λ x own h c same.
                let here : contains chosen x.id ≡ true =
                  ground (arith, lease_if-KeepsKey uuid now input chosen x) in
                let within = leased_attempt uuid now input chosen x here (
                  ground (arith, candidate-is_eligible now locked input settled x keys own here)) in
                rw same.2 within)
              (select-own_All message_id settled keys)))
          returned,
    )
