-- ===== src/Outbox/Transitions/Consumption.antt =====
-- The consumer's receipt.
use xpens_go.Prelude.{
  ==_refl, All, Bool-cases, List, arith, contains, if◌then◌else◌, inl, inr, map, refl, some, true,
  ℕ, ◌<◌, ◌≡◌,
}
use xpens_go.Effect.{ok}
use xpens_go.Outbox.Checks.{IsConsistent, IsPositive}
use xpens_go.Outbox.Rows.{OutboxMessageReceipt, OutboxTables, has_receipt, message_id, receipt_id}
use xpens_go.Outbox.Transitions.{record_consumption, redeliver, upsert_receipt}
use xpens_go.Outbox.Transitions.Laws.{redeliver-KeepsKey}
use xpens_go.Outbox.Types.{
  OutboxConsumptionOutcome, OutboxMessageId, duplicate, not_found, processed,
}
use xpens_go.Table.{select}
use xpens_go.Table.Laws.{map-key-update, select-All, select-absent, select-contains}

receipt_attempts_pos :
    (id : OutboxMessageId) (rs : List OutboxMessageReceipt) (r : OutboxMessageReceipt)
    → All IsPositive rs
    → select receipt_id id rs ≡ some r
    → 0 < r.delivery_attempts
receipt_attempts_pos id rs r h found =
    let positive = select-All receipt_id IsPositive id rs r h found in ground arith

-- The answer that a delivery gets: the identifier is unknown, or the message is consumed for the
-- first time, or it was consumed before.
abbrev pub consumption_answer : OutboxTables → OutboxMessageId → OutboxConsumptionOutcome
consumption_answer t id =
    if contains (map message_id t.messages) id
    then (if has_receipt t.receipts id then duplicate else processed)
    else not_found

-- On consistent tables, a delivery is answered `Processed` exactly when the message is known and has no receipt yet,
-- `Duplicate` when it has one, and `NotFound` when it is unknown. A known message has a receipt
-- afterwards, and the messages' rows stay as they are.
pub record_consumption_lem :
    (now : ℕ) (id : OutboxMessageId) (t : OutboxTables)
    → IsConsistent t
    → ((record_consumption now id t).0 ≡ ok (consumption_answer t id))
      × ((record_consumption now id t).1.messages ≡ t.messages)
      × (contains (map message_id t.messages) id ≡ true
          → has_receipt (record_consumption now id t).1.receipts id ≡ true)
unfolding record_consumption
record_consumption_lem now id t c = elim (Bool-cases (contains (map message_id t.messages) id)) [
  | inr absent ↦
      rw (select-absent message_id id t.messages absent, record_consumption, absent)
        (refl, refl, λ impossible. cc)
  | inl known ↦
      let (m, found) = select-contains message_id id t.messages known in
      elim (Bool-cases (has_receipt t.receipts id)) [
        | inl consumed ↦
            let (r, receipt) = select-contains receipt_id id t.receipts consumed in
            let attempts = receipt_attempts_pos id t.receipts r c.positive receipt in
            rw (found, record_consumption, known, consumed)
              (unfold upsert_receipt in
                rw (receipt, upsert_receipt)
                  (
                    ground arith,
                    refl,
                    λ _.
                        rw
                          (map-key-update receipt_id id (redeliver now) (redeliver-KeepsKey now)
                            t.receipts)
                          consumed,
                  ))
        | inr fresh ↦
            rw (found, record_consumption, known, fresh)
              (unfold upsert_receipt in
                rw (select-absent receipt_id id t.receipts fresh, upsert_receipt)
                  (refl, refl, λ _. ground (arith, ==_refl id)))
      ]
]
