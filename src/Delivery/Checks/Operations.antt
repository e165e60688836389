-- ===== src/Delivery/Checks/Operations.antt =====
-- Every operation of packages/adapters/src/postgres/telegram-delivery-store.ts and
-- telegram-delivery-recovery-store.ts keeps the constraints of the delivery tables.
use xpens_go.Prelude.{
  All-map, Bool-cases, Option-cases, String, arith, inl, inr, leb, refl, some, subst, sym, ℕ, ◌+◌,
  ◌∷◌, ◌≡◌,
}
use xpens_go.Delivery.Checks.{IsCompleted, IsRecorded, MeetsDeliveryChecks}
use xpens_go.Delivery.Checks.Kept.{
  close_attempt-IsCompleted, close_message-IsWhole, exhaust_message-IsWhole, expire_message-IsWhole,
  fail_attempt-kept, message-kept, publish_recovery-IsRecorded, reopen_message-IsWhole,
  start_delivery-IsWhole,
}
use xpens_go.Delivery.RecoveryStore.{
  find_job, find_recovery, mark_published, new_recovery, prepare, prepare_row, publish_recovery,
  refusal, reopen_message,
}
use xpens_go.Delivery.Rows.{
  DeliveryTables, OutboundMessage, attempt_id, message_id, reply_of, reply_of-select,
}
use xpens_go.Delivery.Store.Claim.{
  claim, claim_row, exhaust_message, expire_attempt, expire_message, is_delivering, is_final,
  is_held, is_taken, new_attempt, start_delivery,
}
use xpens_go.Delivery.Store.Complete.{
  close_attempt, close_message, close_message-KeepsKey, complete_attempt, owns_attempt,
}
use xpens_go.Delivery.System.Invariant.{recoverable-is_quiet}
use xpens_go.Delivery.Types.{
  RecoverTelegramDeliveryInput, TelegramDeliveryPolicy, TelegramProviderAttemptOutcome,
}
use xpens_go.Table.{select, update}
use xpens_go.Table.Laws.{key-select, update-All}

claim_row-MeetsDeliveryChecks :
    (attempt clock now : ℕ) (policy : TelegramDeliveryPolicy) (m : OutboundMessage)
    (t : DeliveryTables)
    → select message_id m.id t.messages ≡ some m
    → MeetsDeliveryChecks t
    → MeetsDeliveryChecks (claim_row attempt clock now policy m t).1
unfolding claim_row
claim_row-MeetsDeliveryChecks attempt clock now policy m t found h =
    elim (Bool-cases (is_final m.status)) [
      | inl final ↦ rw (final, claim_row) h
      | inr live ↦ elim (Bool-cases (is_delivering m.status)) [
        | inl busy ↦ elim (Bool-cases (is_held m.delivery_claimed_until clock)) [
          | inl held ↦ rw (live, busy, held, claim_row) h
          | inr lapsed ↦
              rw (live, busy, lapsed, claim_row)
                (message-kept (expire_message now) m t
                  (expire_attempt now m.delivery_claim_id t.attempts) t.recoveries (λ x. refl) found
                  (expire_message-IsWhole now m busy)
                  (fail_attempt-kept now m.delivery_claim_id t.attempts h.attempts) h.recoveries h)
        ]
        | inr idle ↦ elim (Bool-cases (leb policy.maximum_attempts m.delivery_attempts)) [
          | inl spent ↦
              rw (live, idle, spent, claim_row)
                (message-kept (exhaust_message now) m t t.attempts t.recoveries (λ x. refl) found
                  (exhaust_message-IsWhole now m live idle) h.attempts h.recoveries h)
          | inr few ↦
              elim (Bool-cases (is_taken attempt m.id (m.delivery_attempts + 1) t.attempts)) [
                | inl taken ↦ rw (live, idle, few, taken, claim_row) h
                | inr fresh ↦
                    rw (live, idle, few, fresh, claim_row)
                      (message-kept (start_delivery attempt now policy) m t
                        (new_attempt attempt m.id (m.delivery_attempts + 1) ∷ t.attempts)
                        t.recoveries (λ x. refl) found
                        (start_delivery-IsWhole attempt now policy m live) (refl, h.attempts)
                        h.recoveries h)
              ]
        ]
      ]
    ]

pub claim-MeetsDeliveryChecks :
    (attempt clock now outbox : ℕ) (policy : TelegramDeliveryPolicy) (t : DeliveryTables)
    → MeetsDeliveryChecks t
    → MeetsDeliveryChecks (claim attempt clock now outbox policy t).1
unfolding claim
claim-MeetsDeliveryChecks attempt clock now outbox policy t h =
    elim (Option-cases (reply_of t outbox)) [
      | inl missing ↦ rw (missing, claim) h
      | inr (m, found) ↦
          rw (found, claim)
            (claim_row-MeetsDeliveryChecks attempt clock now policy m t
              (reply_of-select t outbox m found) h)
    ]

pub complete_attempt-MeetsDeliveryChecks :
    (now attempt message : ℕ) (outcome : TelegramProviderAttemptOutcome) (t : DeliveryTables)
    → MeetsDeliveryChecks t
    → MeetsDeliveryChecks (complete_attempt now attempt message outcome t).1
unfolding complete_attempt
complete_attempt-MeetsDeliveryChecks now attempt message outcome t h =
    elim (Option-cases (select message_id message t.messages)) [
      | inl absent ↦ rw (absent, complete_attempt) h
      | inr (m, found) ↦ elim (Bool-cases (owns_attempt attempt m)) [
        | inr stale ↦ rw (found, stale, complete_attempt) h
        | inl owned ↦
            let own = key-select message_id message t.messages m found in
            rw (found, owned, complete_attempt)
              (subst
                (λ x. MeetsDeliveryChecks (record t {
                  messages = update message_id x (close_message now outcome) t.messages;
                  attempts =
                      update attempt_id attempt (close_attempt now message outcome) t.attempts;
                }))
                own
                (message-kept (close_message now outcome) m t
                  (update attempt_id attempt (close_attempt now message outcome) t.attempts)
                  t.recoveries (close_message-KeepsKey now outcome)
                  (subst (λ x. select message_id x t.messages ≡ some m) (sym own) found)
                  (close_message-IsWhole now outcome m (ground arith))
                  (update-All attempt_id IsCompleted attempt (close_attempt now message outcome)
                    t.attempts (close_attempt-IsCompleted now message outcome) h.attempts)
                  h.recoveries h))
      ]
    ]

pub prepare-MeetsDeliveryChecks :
    (input : RecoverTelegramDeliveryInput) (limit : ℕ) (t : DeliveryTables)
    → MeetsDeliveryChecks t
    → MeetsDeliveryChecks (prepare input limit t).1
unfolding prepare prepare_row
prepare-MeetsDeliveryChecks input limit t h =
    elim (Option-cases (find_recovery input.recovery_id t.recoveries)) [
      | inr (r, seen) ↦ rw (seen, prepare) h
      | inl fresh ↦ elim (Option-cases (select message_id input.outbound_message_id t.messages)) [
        | inl absent ↦ rw (fresh, absent, prepare) h
        | inr (m, found) ↦ elim (Option-cases (find_job m.id t.jobs)) [
          | inl lost ↦ rw (fresh, found, lost, prepare) h
          | inr (job, joined) ↦ elim (Option-cases (refusal input limit m)) [
            | inr (reason, denied) ↦ rw (fresh, found, joined, prepare, denied, prepare_row) h
            | inl allowed ↦
                rw (fresh, found, joined, prepare, allowed, prepare_row)
                  (message-kept reopen_message m t t.attempts
                    (new_recovery input job.id m ∷ t.recoveries) (λ x. refl)
                    (subst (λ x. select message_id x t.messages ≡ some m)
                      (sym (key-select message_id input.outbound_message_id t.messages m found))
                      found)
                    (reopen_message-IsWhole m (recoverable-is_quiet input limit m allowed))
                    h.attempts (refl, h.recoveries) h)
          ]
        ]
      ]
    ]

pub mark_published-MeetsDeliveryChecks :
    (now : ℕ) (id : String) (t : DeliveryTables)
    → MeetsDeliveryChecks t
    → MeetsDeliveryChecks (mark_published now id t).1
unfolding mark_published
mark_published-MeetsDeliveryChecks now id t h =
    elim (Option-cases (find_recovery id t.recoveries)) [
      | inl absent ↦ rw (absent, mark_published) h
      | inr (r, found) ↦
          rw (found, mark_published)
            (record {
              messages = h.messages;
              attempts = h.attempts;
              recoveries =
                  All-map IsRecorded IsRecorded (publish_recovery now id) t.recoveries
                    (publish_recovery-IsRecorded now id) h.recoveries;
              message_keys = h.message_keys;
            })
    ]
