-- ===== src/Outbox/History/Superseded.antt =====
-- A dispatcher whose publication claim another has taken over: packages/adapters/src/postgres/
-- outbox-store.ts.
use xpens_go.Prelude.{
  All, All-mono, Bool, Bool-cases, List, [], ap, arith, contains, false, inl, inr, map, refl, some,
  true, ℕ, ◌==◌, ◌∙◌, ◌∷◌, ◌≡◌,
}
use xpens_go.Effect.{err, ok}
use xpens_go.Outbox.ClaimPending.{claim_pending}
use xpens_go.Outbox.ClaimPending.Batch.{claims}
use xpens_go.Outbox.History.{Operation, history}
use xpens_go.Outbox.History.LeaseSteps.{history-IsLeased}
use xpens_go.Outbox.History.Leased.{Holds, IsLeased, Spares}
use xpens_go.Outbox.History.Leases.{claim_pending-IsLeased}
use xpens_go.Outbox.Rows.{OutboxMessage, OutboxTables, after_seconds, message_id, pending}
use xpens_go.Outbox.Transitions.{mark_published, owns_claim, record_publication_failure}
use xpens_go.Outbox.Transitions.Laws.{stale_answer, stale_reports}
use xpens_go.Outbox.Types.{
  ClaimPendingOutboxInput, ClaimedOutboxPublication, OutboxClaimId, OutboxMessageId,
  OutboxOperation, RecordOutboxPublicationFailureInput, mark_outbox_published,
  record_outbox_publication_failure, state_conflict,
}
use xpens_go.Table.{HasUniqueKeys, select}

select-known :
    (k : OutboxMessageId) (P : OutboxMessage → Type 0) (ms : List OutboxMessage)
    → contains (map message_id ms) k ≡ true
    → All (λ m. (m.id == k) ≡ true → P m) ms
    → (m : OutboxMessage) × (select message_id k ms ≡ some m) × P m
select-known k P [] known h = absurd (ground arith)
select-known k P (x ∷ xs) known (here, h) = elim (Bool-cases (x.id == k)) [
  | inl same ↦ (x, ground (arith, same), here same)
  | inr other ↦
      let (m, found, p) = select-known k P xs (ground (arith, known, other)) h in
      (m, ground (arith, other, found), p)
]

owns_claim-leased :
    (k : OutboxMessageId) (c u old : ℕ) (m : OutboxMessage)
    → (c == old) ≡ false
    → ((m.id == k) ≡ true
        → (m.status ≡ pending) × (m.publish_claim_id ≡ some c) × (m.publish_claimed_until ≡ some u))
    → owns_claim k old m ≡ false
unfolding owns_claim
owns_claim-leased k c u old m other h = elim (Bool-cases (m.id == k)) [
  | inl here ↦ let (waiting, claimed_by, until) = h here in ground (arith, here, claimed_by, other)
  | inr there ↦ rw there refl
]

stale_answer-leased :
    (operation : OutboxOperation) (k : OutboxMessageId) (c : OutboxClaimId) (u : ℕ)
    (t : OutboxTables)
    → IsLeased k c u t
    → stale_answer operation k (select message_id k t.messages) ≡ err (state_conflict operation k)
stale_answer-leased operation k c u t h =
    let (m, found, held) = select-known k _ t.messages h.known h.leased in
    let (waiting, claimed_by, until) = held in rw (found, waiting) refl

-- On messages with unique identifiers, once a dispatcher has claimed a message, a dispatcher with
-- another claim on it, such as one whose lease has ended, is told of the conflict by either report,
-- and changes nothing: whatever operations come in between, as long as dispatchers among them start
-- before the new lease ends, none gives the new claim back, and no consumer receives the message.
pub superseded_reports :
    (uuid : OutboxMessageId → OutboxClaimId) (locked : OutboxMessageId → Bool) (now later : ℕ)
    (input : ClaimPendingOutboxInput) (t t' : OutboxTables) (batch : List ClaimedOutboxPublication)
    (os : List Operation) (report : RecordOutboxPublicationFailureInput)
    → let k = report.outbox_message_id in
      HasUniqueKeys message_id t.messages
      → claim_pending uuid locked now input t ≡ (ok batch, t')
      → claims batch k ≡ true
      → All (Spares k (uuid k) (after_seconds now input.lease_duration_seconds)) os
      → (uuid k == report.claim_id) ≡ false
      → (mark_published later
            (record { outbox_message_id = k; claim_id = report.claim_id })
            (history os t')
          ≡ (err (state_conflict mark_outbox_published k), history os t'))
        × (record_publication_failure later report (history os t')
            ≡ (err (state_conflict record_outbox_publication_failure k), history os t'))
superseded_reports uuid locked now later input t t' batch os report unique e h s other =
    let k = report.outbox_message_id in
    let u = after_seconds now input.lease_duration_seconds in
    let leased =
      history-IsLeased k (uuid k) u os t' s
        (claim_pending-IsLeased uuid locked now input t t' batch k unique e h) in
    let (marked, reported) = stale_reports later report (history os t') (
      All-mono (Holds k (uuid k) u) _ (history os t').messages
        (λ m held. owns_claim-leased k (uuid k) u report.claim_id m other held) leased.leased) in
    let conflict = stale_answer-leased mark_outbox_published k (uuid k) u (history os t') leased in
    let conflict' =
      stale_answer-leased record_outbox_publication_failure k (uuid k) u (history os t') leased in
    (
      marked ∙ ap (λ x. (x, history os t')) conflict,
      reported ∙ ap (λ x. (x, history os t')) conflict',
    )
