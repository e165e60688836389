-- ===== src/Outbox/ClaimPending.antt =====
-- `claimPending` of packages/adapters/src/postgres/outbox-store.ts: its three clean-up statements
-- and the claiming statement, as functions on the rows.
--
-- `now` is CURRENT_TIMESTAMP, which is one value for a transaction. What the database decides is a
-- parameter: `uuid` gives the claim identifier that gen_random_uuid() draws for a row, and `locked`
-- tells the rows that SKIP LOCKED passes over, since another transaction holds them. The rows that
-- RETURNING gives come in the table's order, which the source does not rely on.
pub mod Candidates
pub mod Batch
pub mod Receipts
pub mod Bounds
use xpens_go.Prelude.{
  ℕ, ◌+◌, Bool, not, ◌&&◌, ◌||◌, Option, none, some, List, [], ◌∷◌, map, ltb, leb, ◌==◌,
  if◌then◌else◌, contains, filter, take,
}
use xpens_go.Effect.{Effect, Result, ok, err, with_transaction}
use xpens_go.Table.{select}
use xpens_go.Outbox.Types.{
  OutboxMessageId, OutboxClaimId, ClaimedOutboxPublication, ClaimPendingOutboxInput,
  consumer_stalled, publication_attempts_exhausted, claim_pending_outbox, OutboxError,
  persistence_unavailable,
}
use xpens_go.Outbox.Rows.{
  pending, published, failed, is_pending, is_published, OutboxMessage, OutboxMessageReceipt,
  OutboxTables, message_id, receipt_id, has_receipt, after_seconds, is_lapsed, is_stalled,
}

-- The first statement of `claimPending`, on one row: a consumed message is published.
unfoldable pub acknowledge : List OutboxMessageReceipt → OutboxMessage → OutboxMessage
acknowledge receipts m = elim (select receipt_id m.id receipts) [
  | none ↦ m
  | some receipt ↦ if is_published m.status then m else record m {
    status = published;
    published_at = some receipt.consumed_at;
    failed_at = none;
    publish_claim_id = none;
    publish_claimed_until = none;
    last_publish_error_code = none;
  }
]

-- The second statement: a published message with no receipt in time is reopened, or has failed.
unfoldable pub reopen_stalled :
    ℕ → ClaimPendingOutboxInput → List OutboxMessageReceipt → OutboxMessage → OutboxMessage
reopen_stalled now input receipts m =
    let exhausted = leb input.maximum_attempts m.publish_attempts in
    if is_published m.status
      && is_stalled m.published_at input.receipt_timeout_seconds now
      && not (has_receipt receipts m.id)
    then record m {
      status = if exhausted then failed else pending;
      published_at = none;
      failed_at = if exhausted then some now else none;
      next_publish_attempt_at = now;
      publish_claim_id = none;
      publish_claimed_until = none;
      last_publish_error_code = some consumer_stalled;
    }
    else m

-- The third statement: a pending message whose attempts are spent, and is not leased, has failed.
unfoldable pub exhaust : ℕ → ClaimPendingOutboxInput → OutboxMessage → OutboxMessage
exhaust now input m =
    if is_pending m.status
      && leb input.maximum_attempts m.publish_attempts
      && is_lapsed m.publish_claimed_until now
    then record m {
      status = failed;
      failed_at = some now;
      publish_claim_id = none;
      publish_claimed_until = none;
      last_publish_error_code = some publication_attempts_exhausted;
    }
    else m

-- The three statements in their order, on one row.
unfoldable pub settle :
    ℕ → ClaimPendingOutboxInput → List OutboxMessageReceipt → OutboxMessage → OutboxMessage
settle now input receipts m =
    exhaust now input (reopen_stalled now input receipts (acknowledge receipts m))

-- The WHERE of the candidates.
unfoldable pub is_eligible : ℕ → ClaimPendingOutboxInput → OutboxMessage → Bool
is_eligible now input m =
    is_pending m.status
    && ltb m.publish_attempts input.maximum_attempts
    && leb m.next_publish_attempt_at now
    && is_lapsed m.publish_claimed_until now

-- ORDER BY next_publish_attempt_at, created_at, id
unfoldable pub comes_before : OutboxMessage → OutboxMessage → Bool
comes_before a b =
    ltb a.next_publish_attempt_at b.next_publish_attempt_at
    || (a.next_publish_attempt_at == b.next_publish_attempt_at
        && (ltb a.created_at b.created_at || (a.created_at == b.created_at && leb a.id b.id)))

unfoldable pub insert_ordered : OutboxMessage → List OutboxMessage → List OutboxMessage
insert_ordered m [] = m ∷ []
insert_ordered m (x ∷ xs) =
    let later = x ∷ insert_ordered m xs in if comes_before m x then m ∷ x ∷ xs else later

unfoldable pub order_by : List OutboxMessage → List OutboxMessage
order_by [] = []
order_by (m ∷ ms) = insert_ordered m (order_by ms)

-- The common table expression `candidates`.
unfoldable pub candidates :
    ℕ
    → (OutboxMessageId → Bool)
    → ClaimPendingOutboxInput
    → List OutboxMessage
    → List OutboxMessageId
candidates now locked input ms =
    let open_rows = filter (λ m. is_eligible now input m && not (locked m.id)) ms in
    map message_id (take input.limit (order_by open_rows))

-- The SET of the claiming UPDATE.
unfoldable pub lease :
    (OutboxMessageId → OutboxClaimId) → ℕ → ClaimPendingOutboxInput → OutboxMessage → OutboxMessage
lease uuid now input m = record m {
  publish_claim_id = some (uuid m.id);
  publish_claimed_until = some (after_seconds now input.lease_duration_seconds);
  publish_attempts = m.publish_attempts + 1;
}

abbrev pub lease_if :
    (OutboxMessageId → OutboxClaimId)
    → ℕ
    → ClaimPendingOutboxInput
    → List OutboxMessageId
    → OutboxMessage
    → OutboxMessage
lease_if uuid now input chosen m = if contains chosen m.id then lease uuid now input m else m

-- RETURNING, with the decoding of its columns.
unfoldable pub returning :
    (OutboxMessageId → OutboxClaimId) → List OutboxMessage → Option (List ClaimedOutboxPublication)
returning uuid [] = some []
returning uuid (m ∷ ms) = elim m.correlation_id [
  | none ↦ none
  | some correlation ↦ elim (returning uuid ms) [
    | none ↦ none
    | some rest ↦ some (
        record {
          outbox_message_id = m.id;
          claim_id = uuid m.id;
          correlation_id = correlation;
          attempt = m.publish_attempts;
        }
        ∷ rest)
  ]
]

abbrev pub claimed_or_unavailable :
    OutboxTables
    → Option (List ClaimedOutboxPublication)
    → Result OutboxError (List ClaimedOutboxPublication) × OutboxTables
claimed_or_unavailable t none = (err (persistence_unavailable claim_pending_outbox), t)
claimed_or_unavailable t (some batch) = (ok batch, t)

unfoldable pub claim_pending :
    (OutboxMessageId → OutboxClaimId)
    → (OutboxMessageId → Bool)
    → ℕ
    → ClaimPendingOutboxInput
    → Effect OutboxTables OutboxError (List ClaimedOutboxPublication)
claim_pending uuid locked now input = with_transaction (λ t.
    let settled = map (settle now input t.receipts) t.messages in
    let chosen = candidates now locked input settled in
    let leased = map (lease_if uuid now input chosen) settled in
    claimed_or_unavailable (record t { messages = leased })
      (returning uuid (filter (λ m. contains chosen m.id) leased)))
