-- ===== src/Delivery/System/Schedules.antt =====
-- Every step, and so every schedule, keeps the invariant of a message:
-- packages/adapters/src/postgres/telegram-delivery-store.ts and telegram-delivery-recovery-store.ts.
use xpens_go.Prelude.{
  All, List, Option-cases, String, [], arith, inl, inr, refl, some, subst, sym, ℕ, ◌∷◌, ◌≡◌, ◌≤◌,
}
use xpens_go.Delivery.RecoveryStore.{
  find_job, find_recovery, mark_published, prepare, prepare_row, refusal, reopen_message,
}
use xpens_go.Delivery.Rows.{OutboundMessage, message_id}
use xpens_go.Delivery.System.{
  Event, System, begin, call, crash_answered, crash_unsent, finish, of_answer, of_attempt, publish,
  recover, run, step, take_out,
}
use xpens_go.Delivery.System.Counts.{is_answer_for, is_for, is_refusal_for, take_out-count}
use xpens_go.Delivery.System.Invariant.{
  IsSafe, drop-Allows, recoverable-is_quiet, reopen-Allows, tally_of, update-Allows,
}
use xpens_go.Delivery.System.Steps.{begin-IsSafe, call-IsSafe, drop_answer-IsSafe, finish-IsSafe}
use xpens_go.Delivery.Types.{RecoverTelegramDeliveryInput}
use xpens_go.Table.{select}
use xpens_go.Table.Laws.{key-select}

prepare_row-IsSafe :
    (k maximum limit outbox : ℕ) (input : RecoverTelegramDeliveryInput) (m : OutboundMessage)
    (s : System)
    → select message_id m.id s.tables.messages ≡ some m
    → IsSafe k maximum s
    → IsSafe k maximum (record s { tables = (prepare_row input limit outbox m s.tables).1 })
unfolding prepare_row
prepare_row-IsSafe k maximum limit outbox input m s found h =
    elim (Option-cases (refusal input limit m)) [
      | inr (reason, refused) ↦ rw (refused, prepare_row) h
      | inl allowed ↦
          rw (allowed, prepare_row)
            (update-Allows k maximum reopen_message s.tables.messages m (tally_of k s)
              (tally_of k s) (λ x. refl) found
              (λ same.
                reopen-Allows maximum m (tally_of k s) (recoverable-is_quiet input limit m allowed))
              (λ other kept. kept) h)
    ]

prepare-IsSafe :
    (k maximum limit : ℕ) (input : RecoverTelegramDeliveryInput) (s : System)
    → IsSafe k maximum s
    → IsSafe k maximum (record s { tables = (prepare input limit s.tables).1 })
unfolding prepare
prepare-IsSafe k maximum limit input s h =
    elim (Option-cases (find_recovery input.recovery_id s.tables.recoveries)) [
      | inr (r, seen) ↦ rw (seen, prepare) h
      | inl fresh ↦
          elim (Option-cases (select message_id input.outbound_message_id s.tables.messages)) [
            | inl absent ↦ rw (fresh, absent, prepare) h
            | inr (m, found) ↦ elim (Option-cases (find_job m.id s.tables.jobs)) [
              | inl lost ↦ rw (fresh, found, lost, prepare) h
              | inr (job, joined) ↦
                  rw (fresh, found, joined, prepare)
                    (prepare_row-IsSafe k maximum limit job.id input m s
                      (subst (λ x. select message_id x s.tables.messages ≡ some m)
                        (sym (
                          key-select message_id input.outbound_message_id s.tables.messages m
                            found))
                        found)
                      h)
            ]
          ]
    ]

mark_published-IsSafe :
    (k maximum now : ℕ) (id : String) (s : System)
    → IsSafe k maximum s
    → IsSafe k maximum (record s { tables = (mark_published now id s.tables).1 })
unfolding mark_published
mark_published-IsSafe k maximum now id s h =
    elim (Option-cases (find_recovery id s.tables.recoveries)) [
      | inl absent ↦ rw (absent, mark_published) h
      | inr (r, found) ↦ rw (found, mark_published) h
    ]

-- Every attempt is claimed with a policy of at most `maximum` attempts.
abbrev pub IsWithin : ℕ → Event → Type 0
IsWithin maximum (begin attempt clock now outbox policy) = policy.maximum_attempts ≤ maximum
IsWithin maximum (call attempt outcome) = Unit
IsWithin maximum (finish now attempt) = Unit
IsWithin maximum (crash_unsent attempt) = Unit
IsWithin maximum (crash_answered attempt) = Unit
IsWithin maximum (recover input limit) = Unit
IsWithin maximum (publish now id) = Unit

pub step-IsSafe :
    (k maximum : ℕ) (e : Event) (s : System)
    → IsWithin maximum e
    → IsSafe k maximum s
    → IsSafe k maximum (step e s)
unfolding step
step-IsSafe k maximum (begin attempt clock now outbox policy) s b h =
    begin-IsSafe k maximum attempt clock now outbox policy s b h
step-IsSafe k maximum (call attempt outcome) s b h =
    elim (Option-cases (take_out (of_attempt attempt) s.unsent)) [
      | inl nobody ↦ rw nobody h
      | inr ((c, rest), found) ↦ rw found (
          call-IsSafe k maximum outcome s c rest
            (take_out-count (of_attempt attempt) (is_for k) s.unsent c rest found) h)
    ]
step-IsSafe k maximum (finish now attempt) s b h =
    elim (Option-cases (take_out (of_answer attempt) s.answers)) [
      | inl nobody ↦ rw nobody h
      | inr ((a, rest), found) ↦ rw found (
          finish-IsSafe k maximum s a rest
            (take_out-count (of_answer attempt) (is_answer_for k) s.answers a rest found)
            (take_out-count (of_answer attempt) (is_refusal_for k) s.answers a rest found) h now)
    ]
step-IsSafe k maximum (crash_unsent attempt) s b h =
    elim (Option-cases (take_out (of_attempt attempt) s.unsent)) [
      | inl nobody ↦ rw nobody h
      | inr ((c, rest), found) ↦ rw found (
          drop-Allows maximum (select message_id k s.tables.messages) (tally_of k s)
            (tally_of k (record s { unsent = rest }))
            (omega (arith, take_out-count (of_attempt attempt) (is_for k) s.unsent c rest found))
            (omega arith) (omega arith) refl refl h)
    ]
step-IsSafe k maximum (crash_answered attempt) s b h =
    elim (Option-cases (take_out (of_answer attempt) s.answers)) [
      | inl nobody ↦ rw nobody h
      | inr ((a, rest), found) ↦ rw found (
          drop_answer-IsSafe k maximum s a rest
            (take_out-count (of_answer attempt) (is_answer_for k) s.answers a rest found)
            (take_out-count (of_answer attempt) (is_refusal_for k) s.answers a rest found) h)
    ]
step-IsSafe k maximum (recover input limit) s b h = prepare-IsSafe k maximum limit input s h
step-IsSafe k maximum (publish now id) s b h = mark_published-IsSafe k maximum now id s h

pub run-IsSafe :
    (k maximum : ℕ) (es : List Event) (s : System)
    → All (IsWithin maximum) es
    → IsSafe k maximum s
    → IsSafe k maximum (run es s)
unfolding run
run-IsSafe k maximum [] s b h = h
run-IsSafe k maximum (e ∷ es) s (b, bs) h =
    run-IsSafe k maximum es (step e s) bs (step-IsSafe k maximum e s b h)
