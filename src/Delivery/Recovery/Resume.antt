-- ===== src/Delivery/Recovery/Resume.antt =====
-- Repeating a recovery: packages/adapters/src/postgres/telegram-delivery-recovery-store.ts under
-- packages/domain/src/channel/recover-telegram-delivery.ts.
use xpens_go.Prelude.{
  ==_refl, List, Option-cases, String, arith, inl, inr, refl, some, str_eq_refl, subst, true, ℕ,
  ◌∷◌, ◌≡◌,
}
use xpens_go.Delivery.Recovery.{TelegramDeliveryRecoveryStore}
use xpens_go.Delivery.RecoveryStore.{
  find_job, find_recovery, mark_published, new_recovery, prepare, prepare_row, refusal,
  resume_recovery, same_reason,
}
use xpens_go.Delivery.Rows.{DeliveryRecovery, DeliveryTables, OutboundMessage, message_id}
use xpens_go.Delivery.Types.{
  PrepareOutcome, PublicationStatus, RecoverTelegramDeliveryInput, TelegramDeliveryRecoveryReason,
  not_recoverable, prepared, provider_configuration_corrected, published, ready,
  recipient_state_corrected,
}
use xpens_go.Effect.{Result, ok}
use xpens_go.Outbox.Dispatch.{OutboxPublication}
use xpens_go.Outbox.Types.{CorrelationId, OutboxMessageId, OutboxPublicationError}
use xpens_go.Table.{select}
use xpens_go.Table.Laws.{key-select}

-- The tables, and the jobs that the Queue was sent, the last one first.
abbrev pub RecoveryWorld : Type 0
RecoveryWorld = DeliveryTables × List (OutboxMessageId × CorrelationId)

abbrev pub recovery_store : ℕ → TelegramDeliveryRecoveryStore RecoveryWorld
recovery_store now = record {
  prepare = λ input maximum s. let (r, t) = prepare input maximum s.0 in (ok r, (t, s.1));
  mark_published = λ id s. let (r, t) = mark_published now id s.0 in (ok r, (t, s.1));
}

abbrev pub queue : Result OutboxPublicationError (Unit {0}) → OutboxPublication RecoveryWorld
queue answer = record {
  publish = λ outbox correlation s. (answer, (s.0, (outbox, correlation) ∷ s.1));
}

same_reason_refl : (r : TelegramDeliveryRecoveryReason) → same_reason r r ≡ true
same_reason_refl recipient_state_corrected = refl
same_reason_refl provider_configuration_corrected = refl

resume-new_recovery :
    (input : RecoverTelegramDeliveryInput) (outbox : OutboxMessageId) (m : OutboundMessage)
    → m.id ≡ input.outbound_message_id
    → resume_recovery input (new_recovery input outbox m) ≡ ready prepared outbox m.correlation_id
unfolding resume_recovery
resume-new_recovery input outbox m same = ground (
  arith,
  same,
  ==_refl input.outbound_message_id,
  str_eq_refl input.expected_error_code,
  same_reason_refl input.reason,
)

-- A ready recovery is stored under its identifier, and the same request finds it again.
abbrev Resumes : RecoverTelegramDeliveryInput → PrepareOutcome × DeliveryTables → Type 0
Resumes input (not_recoverable reason, t) = Unit
Resumes input (ready status outbox correlation, t) =
    (r : DeliveryRecovery) × (find_recovery input.recovery_id t.recoveries ≡ some r)
    × (resume_recovery input r ≡ ready status outbox correlation)

existing-Resumes :
    (input : RecoverTelegramDeliveryInput) (r : DeliveryRecovery) (t : DeliveryTables)
    (outcome : PrepareOutcome)
    → find_recovery input.recovery_id t.recoveries ≡ some r
    → resume_recovery input r ≡ outcome
    → Resumes input (outcome, t)
existing-Resumes input r t (not_recoverable reason) found e = tt
existing-Resumes input r t (ready status outbox correlation) found e = (r, found, e)

prepare_row-Resumes :
    (input : RecoverTelegramDeliveryInput) (maximum outbox : ℕ) (m : OutboundMessage)
    (t : DeliveryTables)
    → m.id ≡ input.outbound_message_id
    → Resumes input (prepare_row input maximum outbox m t)
unfolding prepare_row
prepare_row-Resumes input maximum outbox m t same = elim (Option-cases (refusal input maximum m)) [
  | inr (reason, denied) ↦ rw (denied, prepare_row) tt
  | inl allowed ↦
      rw (allowed, prepare_row)
        (
          new_recovery input outbox m,
          rw (str_eq_refl input.recovery_id) refl,
          resume-new_recovery input outbox m same,
        )
]

prepare-Resumes :
    (input : RecoverTelegramDeliveryInput) (maximum : ℕ) (t : DeliveryTables)
    → Resumes input (prepare input maximum t)
unfolding prepare
prepare-Resumes input maximum t =
    elim (Option-cases (find_recovery input.recovery_id t.recoveries)) [
      | inr (r, found) ↦
          rw (found, prepare) (existing-Resumes input r t (resume_recovery input r) found refl)
      | inl fresh ↦ elim (Option-cases (select message_id input.outbound_message_id t.messages)) [
        | inl absent ↦ rw (fresh, absent, prepare) tt
        | inr (m, found) ↦ elim (Option-cases (find_job m.id t.jobs)) [
          | inl lost ↦ rw (fresh, found, lost, prepare) tt
          | inr (job, joined) ↦
              rw (fresh, found, joined, prepare)
                (prepare_row-Resumes input maximum job.id m t
                  (key-select message_id input.outbound_message_id t.messages m found))
        ]
      ]
    ]

-- A recovery that was prepared once is found again by the same request, whatever the limit is then,
-- and the request changes nothing more.
pub prepare_again :
    (input : RecoverTelegramDeliveryInput) (maximum maximum' : ℕ) (t t' : DeliveryTables)
    (status : PublicationStatus) (outbox : OutboxMessageId) (correlation : CorrelationId)
    → prepare input maximum t ≡ (ready status outbox correlation, t')
    → prepare input maximum' t' ≡ (ready status outbox correlation, t')
unfolding prepare
prepare_again input maximum maximum' t t' status outbox correlation e =
    let (r, found, same) = subst (Resumes input) e (prepare-Resumes input maximum t) in
    rw (found, prepare) (rw same refl)

-- The recovery is recorded as published at `now`, and nothing but recoveries has changed.
abbrev pub IsPublishedAt : ℕ → String → DeliveryTables → DeliveryTables → Type 0
IsPublishedAt now id t t' =
    ((r : DeliveryRecovery) × (find_recovery id t'.recoveries ≡ some r)
      × (r.publication_status ≡ published)
      × (r.published_at ≡ some now))
    × (t'.messages ≡ t.messages)
    × (t'.attempts ≡ t.attempts)
    × (t'.jobs ≡ t.jobs)
