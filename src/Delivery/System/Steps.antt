-- ===== src/Delivery/System/Steps.antt =====
-- Every step of the workers and of the operator keeps the invariant of a message:
-- packages/domain/src/channel/deliver-telegram-reply.ts and recover-telegram-delivery.ts.
use xpens_go.Prelude.{
  Bool-cases, List, Option-cases, arith, count, if◌then◌else◌, inl, inr, leb, refl, some, subst,
  sym, true, ℕ, ◌+◌, ◌==◌, ◌≡◌, ◌≤◌,
}
use xpens_go.Delivery.Rows.{OutboundMessage, message_id, reply_of, reply_of-select}
use xpens_go.Delivery.Store.Claim.{
  claim, claim_row, exhaust_message, expire_message, is_delivering, is_final, is_held, is_taken,
  start_delivery,
}
use xpens_go.Delivery.Store.Complete.{
  close_message, close_message-KeepsKey, complete_attempt, owns_attempt,
}
use xpens_go.Delivery.System.{Answered, System, begun, called, finished}
use xpens_go.Delivery.System.Counts.{is_answer_for, is_for, is_refusal_for, may_be_seen}
use xpens_go.Delivery.System.Invariant.{
  Allows, IsSafe, call-Allows, close-Allows, drop-Allows, exhaust-Allows, expire-Allows,
  quiet_status, start-Allows, tally_of, update-Allows,
}
use xpens_go.Delivery.Types.{
  TelegramDeliveryPolicy, TelegramProviderAttemptOutcome, TelegramReplyClaimed,
}
use xpens_go.Table.{select, update}
use xpens_go.Table.Laws.{key-select}

claim_row-IsSafe :
    (k maximum attempt clock now : ℕ) (policy : TelegramDeliveryPolicy) (m : OutboundMessage)
    (s : System)
    → select message_id m.id s.tables.messages ≡ some m
    → policy.maximum_attempts ≤ maximum
    → IsSafe k maximum s
    → IsSafe k maximum (begun s (claim_row attempt clock now policy m s.tables))
claim_row-IsSafe k maximum attempt clock now policy m s found bound h =
    elim (Bool-cases (is_final m.status)) [
      | inl final ↦ unfold claim_row in rw (final, claim_row) h
      | inr live ↦ elim (Bool-cases (is_delivering m.status)) [
        | inl busy ↦ elim (Bool-cases (is_held m.delivery_claimed_until clock)) [
          | inl held ↦ unfold claim_row in rw (live, busy, held, claim_row) h
          | inr lapsed ↦
              unfold claim_row in
              rw (live, busy, lapsed, claim_row)
                (update-Allows k maximum (expire_message now) s.tables.messages m (tally_of k s)
                  (tally_of k s) (λ x. refl) found
                  (λ same. expire-Allows maximum now m (tally_of k s)) (λ other kept. kept) h)
        ]
        | inr idle ↦
            let quiet = quiet_status m.status live idle in
            elim (Bool-cases (leb policy.maximum_attempts m.delivery_attempts)) [
              | inl spent ↦
                  unfold claim_row in
                  rw (live, idle, spent, claim_row)
                    (update-Allows k maximum (exhaust_message now) s.tables.messages m
                      (tally_of k s) (tally_of k s) (λ x. refl) found
                      (λ same. exhaust-Allows maximum now m (tally_of k s) quiet)
                      (λ other kept. kept) h)
              | inr few ↦
                  elim (Bool-cases
                    (is_taken attempt m.id (m.delivery_attempts + 1) s.tables.attempts)) [
                      | inl taken ↦ unfold claim_row in rw (live, idle, few, taken, claim_row) h
                      | inr fresh ↦
                          unfold claim_row in
                          rw (live, idle, few, fresh, claim_row)
                            (update-Allows k maximum (start_delivery attempt now policy)
                              s.tables.messages m (tally_of k s) _ (λ x. refl) found
                              (λ same. rw same (
                                start-Allows maximum attempt now policy m (tally_of k s) quiet bound
                                  few))
                              (λ other kept. rw other kept) h)
                    ]
            ]
      ]
    ]

pub begin-IsSafe :
    (k maximum attempt clock now outbox : ℕ) (policy : TelegramDeliveryPolicy) (s : System)
    → policy.maximum_attempts ≤ maximum
    → IsSafe k maximum s
    → IsSafe k maximum (begun s (claim attempt clock now outbox policy s.tables))
unfolding claim
begin-IsSafe k maximum attempt clock now outbox policy s bound h =
    elim (Option-cases (reply_of s.tables outbox)) [
      | inl missing ↦ rw (missing, claim) h
      | inr (m, found) ↦
          rw (found, claim)
            (claim_row-IsSafe k maximum attempt clock now policy m s
              (reply_of-select s.tables outbox m found) bound h)
    ]

pub call-IsSafe :
    (k maximum : ℕ) (outcome : TelegramProviderAttemptOutcome) (s : System)
    (c : TelegramReplyClaimed) (rest : List TelegramReplyClaimed)
    → count (is_for k) s.unsent ≡ (if is_for k c then 1 else 0) + count (is_for k) rest
    → IsSafe k maximum s
    → IsSafe k maximum (called outcome s (some (c, rest)))
call-IsSafe k maximum outcome s c rest counted h =
    let o = select message_id k s.tables.messages in
    let n' = tally_of k (called outcome s (some (c, rest))) in
    elim (Bool-cases (is_for k c)) [
      | inl mine ↦ elim (Bool-cases (may_be_seen outcome)) [
        | inl seen ↦
            call-Allows maximum o (tally_of k s) n' (ground arith) (ground arith) (ground arith)
              (ground arith) (ground arith) h
        | inr unseen ↦
            call-Allows maximum o (tally_of k s) n' (ground arith) (ground arith) (ground arith)
              (ground arith) (ground arith) h
      ]
      | inr other ↦
          drop-Allows maximum o (tally_of k s) n' (ground arith) (ground arith) (ground arith)
            (ground arith) (ground arith) h
    ]

module _ (k maximum : ℕ) (s : System) (a : Answered) (rest : List Answered)
    (answers : count (is_answer_for k) s.answers
      ≡ (if is_answer_for k a then 1 else 0) + count (is_answer_for k) rest)
    (refusals : count (is_refusal_for k) s.answers
      ≡ (if is_refusal_for k a then 1 else 0) + count (is_refusal_for k) rest)
    (h : IsSafe k maximum s) where
  abbrev after : System
  after = record s { answers = rest }

  pub drop_answer-IsSafe : IsSafe k maximum after
  drop_answer-IsSafe =
      drop-Allows maximum (select message_id k s.tables.messages) (tally_of k s) (tally_of k after)
        (omega arith) (omega arith) (omega arith) refl refl h

  pub finish-IsSafe : (now : ℕ) → IsSafe k maximum (finished now s (some (a, rest)))
  unfolding complete_attempt
  finish-IsSafe now =
      elim (Option-cases (select message_id a.claim.outbound_message_id s.tables.messages)) [
        | inl absent ↦ rw (absent, complete_attempt) drop_answer-IsSafe
        | inr (m, found) ↦ elim (Bool-cases (owns_attempt a.claim.attempt_id m)) [
          | inr stale ↦ rw (found, stale, complete_attempt) drop_answer-IsSafe
          | inl owned ↦
              let own =
                key-select message_id a.claim.outbound_message_id s.tables.messages m found in
              rw (found, owned, complete_attempt)
                (subst
                  (λ x.
                    Allows maximum
                      (select message_id k
                        (update message_id x (close_message now a.outcome) s.tables.messages))
                      (tally_of k after))
                  own
                  (update-Allows k maximum (close_message now a.outcome) s.tables.messages m
                    (tally_of k s) (tally_of k after) (close_message-KeepsKey now a.outcome)
                    (subst (λ x. select message_id x s.tables.messages ≡ some m) (sym own) found)
                    (λ same.
                      let mine : is_for k a.claim ≡ true = subst (λ x. (x == k) ≡ true) own same in
                      close-Allows maximum now a.outcome m (tally_of k s) (tally_of k after)
                        (ground arith) (ground arith) (ground arith) refl refl refl)
                    (λ other kept. drop_answer-IsSafe) h))
        ]
      ]
