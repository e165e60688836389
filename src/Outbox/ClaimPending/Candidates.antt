-- ===== src/Outbox/ClaimPending/Candidates.antt =====
-- Which rows the candidates of `claimPending` are.
use xpens_go.Prelude.{
  All-mono, All, subst, ℕ, ◌≡◌, refl, Bool, true, false, not, ◌&&◌, some, List, [], ◌∷◌, map, arith,
  ◌==◌, contains, filter,
}
use xpens_go.Table.{select, HasUniqueKeys}
use xpens_go.Table.Laws.{contains-filter_none, contains-take, select-filter}
use xpens_go.Outbox.Types.{OutboxMessageId, ClaimPendingOutboxInput}
use xpens_go.Outbox.Rows.{OutboxMessage, message_id}
use xpens_go.Outbox.ClaimPending.{is_eligible, insert_ordered, order_by, candidates}

contains-insert_ordered :
    (m : OutboxMessage) (xs : List OutboxMessage) (k : OutboxMessageId)
    → contains (map message_id (insert_ordered m xs)) k ≡ contains (map message_id (m ∷ xs)) k
unfolding insert_ordered
contains-insert_ordered m [] k = refl
contains-insert_ordered m (x ∷ xs) k = ground (arith, contains-insert_ordered m xs k)

contains-order_by :
    (ms : List OutboxMessage) (k : OutboxMessageId)
    → contains (map message_id (order_by ms)) k ≡ contains (map message_id ms) k
unfolding order_by
contains-order_by [] k = refl
contains-order_by (m ∷ ms) k =
    ground (arith, contains-insert_ordered m (order_by ms) k, contains-order_by ms k)

-- A candidate's identifier selects an eligible row that no other transaction has locked.
pub candidates_eligible :
    (now : ℕ) (locked : OutboxMessageId → Bool) (input : ClaimPendingOutboxInput)
    (ms : List OutboxMessage) (k : OutboxMessageId)
    → HasUniqueKeys message_id ms
    → contains (candidates now locked input ms) k ≡ true
    → (m : OutboxMessage) × (select message_id k ms ≡ some m)
      × ((is_eligible now input m && not (locked m.id)) ≡ true)
unfolding candidates
candidates_eligible now locked input ms k u h =
    select-filter message_id _ k ms u
      (rw (← contains-order_by _ k) (contains-take message_id input.limit k _ h))

-- A row that its key selects, and that is a candidate, is eligible and not locked.
pub candidate-is_eligible :
    (now : ℕ) (locked : OutboxMessageId → Bool) (input : ClaimPendingOutboxInput)
    (ms : List OutboxMessage) (m : OutboxMessage)
    → HasUniqueKeys message_id ms
    → select message_id m.id ms ≡ some m
    → contains (candidates now locked input ms) m.id ≡ true
    → (is_eligible now input m && not (locked m.id)) ≡ true
candidate-is_eligible now locked input ms m u own h =
    let (m', found, eligible) = candidates_eligible now locked input ms m.id u h in
    let same : m' ≡ m = cc in
    subst (λ x. (is_eligible now input x && not (locked x.id)) ≡ true) same eligible

-- A message none of whose rows is eligible is no candidate.
pub ineligible-candidates :
    (now : ℕ) (locked : OutboxMessageId → Bool) (input : ClaimPendingOutboxInput)
    (ms : List OutboxMessage) (k : OutboxMessageId)
    → All (λ m. (m.id == k) ≡ true → is_eligible now input m ≡ false) ms
    → contains (candidates now locked input ms) k ≡ false
unfolding candidates
ineligible-candidates now locked input ms k h =
    let open_rows = filter (λ m. is_eligible now input m && not (locked m.id)) ms in
    let closed =
      contains-filter_none message_id (λ m. is_eligible now input m && not (locked m.id)) k ms
        (All-mono _ _ ms (λ m hm same. ground (arith, hm same)) h) in
    ground (
      arith,
      contains-take message_id input.limit k (order_by open_rows),
      contains-order_by open_rows k,
      closed,
    )
