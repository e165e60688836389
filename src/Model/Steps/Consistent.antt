-- ===== src/Model/Steps/Consistent.antt =====
-- The CHECK constraints of the operations hold over every sequence of calls: packages/adapters/src/
-- postgres/model-operation-store.ts and migrations/0011-model-operations.ts.
use xpens_go.Prelude.{
  Bool-cases, List, Option, Option-cases, [], ap, arith, inl, inr, ltb, map, none, refl, subst, sym,
  ◌∙◌, ◌∷◌, ◌≡◌,
}
use xpens_go.Effect.{ok}
use xpens_go.Model.Checks.{MeetsModelChecks, OperationChecks}
use xpens_go.Model.Checks.Kept.{
  close-OperationChecks, dispatched-is_closed, idle-is_closed, reject_undispatched-OperationChecks,
  schedule-OperationChecks, settle-OperationChecks, start-OperationChecks,
}
use xpens_go.Model.Prepare.{PrepareStoreInput}
use xpens_go.Model.Steps.{
  IsOperation, ModelCall, ModelStep, copies, expires, idles, inserts, model_call, prepared_tables,
  rejects, rejects_undispatched, restarted_tables, run_model_calls, schedules, settles, starts,
}
use xpens_go.Model.Steps.Refinement.{model_call-ModelStep}
use xpens_go.Model.Store.Budgets.{
  Reservation, engage_kill_switch, has_no_reservation, opened_accounts, pays, record_alerts,
  refuses_reservation, reserve, reserved_accounts,
}
use xpens_go.Model.Store.Claim.{
  close_operation, reject_operation, reject_undispatched, start_attempt,
}
use xpens_go.Model.Store.Complete.{schedule_retry, settle_operation}
use xpens_go.Model.Store.Prepare.{
  insert_operation, new_operation, prepare_reservation, restart_reservation, restarted_operation,
}
use xpens_go.Model.Store.Rows.{ModelTables, Moment, OperationRow, operation_id}
use xpens_go.Model.Types.{attempt_lease_expired, explicitly_rejected, outcome_unknown}
use xpens_go.Table.{KeepsKey, select, update}
use xpens_go.Table.Counts.{contains-select-none, update_one-All}
use xpens_go.Table.Laws.{HasUniqueKeys-update}

pub reserve-ok :
    (r : Reservation) (t t₁ : ModelTables)
    → reserve r t ≡ ok t₁
    → (refuses_reservation r (opened_accounts r t.accounts) ≡ none)
      × (t₁.operations ≡ t.operations)
      × (t₁.attempts ≡ t.attempts)
      × (t₁.accounts ≡ map (engage_kill_switch r.key r.period) (reserved_accounts r t.accounts))
unfolding reserve
reserve-ok r t t₁ h = elim (Option-cases (refuses_reservation r (opened_accounts r t.accounts))) [
  | inr (e, refused_for) ↦ absurd (ground (arith, h, refused_for))
  | inl allowed ↦
      let done : reserve r t
          ≡ ok (record t {
            accounts = map (engage_kill_switch r.key r.period) (reserved_accounts r t.accounts);
            alerts =
                record_alerts (pays r.key r.user r.period) (reserved_accounts r t.accounts)
                  t.alerts;
          }) =
        rw (allowed, reserve) refl in
      let same = sym done ∙ h in (allowed, cc same, cc same, cc same)
]

pub prepared_tables-operations :
    (m : Moment) (input : PrepareStoreInput) (t t₁ : ModelTables)
    → prepared_tables m input t ≡ ok t₁
    → (t₁.operations ≡ t.operations) × (t₁.attempts ≡ t.attempts)
prepared_tables-operations m input t t₁ h =
    elim (Bool-cases (ltb 0 input.reserved_cost_micro_usd)) [
      | inl paid ↦
          let (allowed, operations, attempts, accounts) =
            reserve-ok (prepare_reservation m input) t t₁ (ground (arith, h, paid)) in
          (operations, attempts)
      | inr free ↦
          let same : t ≡ t₁ = ground (arith, h, free) in
          (ap (λ x. x.operations) (sym same), ap (λ x. x.attempts) (sym same))
    ]

pub restarted_tables-operations :
    (m : Moment) (source : OperationRow) (t t₁ : ModelTables)
    → restarted_tables m source t ≡ ok t₁
    → (t₁.operations ≡ t.operations) × (t₁.attempts ≡ t.attempts)
restarted_tables-operations m source t t₁ h = elim (Bool-cases (has_no_reservation source)) [
  | inr paid ↦
      let (allowed, operations, attempts, accounts) =
        reserve-ok (restart_reservation m source) t t₁ (ground (arith, h, paid)) in
      (operations, attempts)
  | inl free ↦
      let same : t ≡ t₁ = ground (arith, h, free) in
      (ap (λ x. x.operations) (sym same), ap (λ x. x.attempts) (sym same))
]

rewrite-MeetsModelChecks :
    (t t' : ModelTables) (o : OperationRow) (f : OperationRow → OperationRow)
    → t'.operations ≡ update operation_id o.id f t.operations
    → IsOperation t o
    → KeepsKey operation_id f
    → (OperationChecks o → OperationChecks (f o))
    → MeetsModelChecks t
    → MeetsModelChecks t'
rewrite-MeetsModelChecks t t' o f operations row keep checks h = record {
  unique = rw operations (HasUniqueKeys-update operation_id o.id f keep t.operations h.unique);
  rows = rw operations (
      update_one-All operation_id OperationChecks o.id f t.operations h.unique
        (λ r found meets.
          let same : o ≡ r = cc in
          subst (λ x. OperationChecks (f x)) same (checks (subst OperationChecks (sym same) meets)))
        h.rows);
}

insert-MeetsModelChecks :
    (o : OperationRow) (t t₁ : ModelTables)
    → select operation_id o.id t.operations ≡ none
    → t₁.operations ≡ t.operations
    → OperationChecks o
    → MeetsModelChecks t
    → MeetsModelChecks (insert_operation o t₁)
insert-MeetsModelChecks o t t₁ absent operations checks h = record {
  unique = rw operations (contains-select-none operation_id o.id t.operations absent, h.unique);
  rows = rw operations (checks, h.rows);
}

pub step-MeetsModelChecks :
    {from : Option PrepareStoreInput} {t t' : ModelTables}
    → ModelStep from t t'
    → MeetsModelChecks t
    → MeetsModelChecks t'
step-MeetsModelChecks idles h = h
step-MeetsModelChecks {t = t} (inserts m input t₁ whence absent made) h =
    insert-MeetsModelChecks (new_operation m input) t t₁ absent
      (prepared_tables-operations m input t t₁ made).0
      (record {
        retry_schedule = refl;
        operation_claim = refl;
        terminal = refl;
        counts = ground arith;
      })
      h
step-MeetsModelChecks {t = t} (copies m input source t₁ row absent unknown_outcome room made) h =
    insert-MeetsModelChecks (restarted_operation m input source) t t₁ absent
      (restarted_tables-operations m source t t₁ made).0
      (record {
        retry_schedule = refl;
        operation_claim = refl;
        terminal = refl;
        counts = ground arith;
      })
      h
step-MeetsModelChecks {t = t} {t' = t'} (expires now attempt o row busy own) h =
    rewrite-MeetsModelChecks t t' o (close_operation now outcome_unknown attempt_lease_expired) refl
      row (λ r. refl)
      (close-OperationChecks now outcome_unknown attempt_lease_expired o refl
        (dispatched-is_closed o.status busy))
      h
step-MeetsModelChecks {t = t} {t' = t'} (rejects now failure o accounts row idle released) h =
    rewrite-MeetsModelChecks t t' o (reject_operation now failure) refl row (λ r. refl)
      (λ c.
        let closed =
          close-OperationChecks now explicitly_rejected failure o refl
            (idle-is_closed o.status idle) c in
        record {
          retry_schedule = closed.retry_schedule;
          operation_claim = closed.operation_claim;
          terminal = closed.terminal;
          counts = closed.counts;
        })
      h
step-MeetsModelChecks {t = t} {t' = t'}
      (rejects_undispatched now failure o accounts row idle released) h =
    rewrite-MeetsModelChecks t t' o (reject_undispatched now failure) refl row (λ r. refl)
      (reject_undispatched-OperationChecks now failure o idle) h
step-MeetsModelChecks {t = t} {t' = t'} (starts now attempt o counters row idle room fresh) h =
    rewrite-MeetsModelChecks t t' o (start_attempt now attempt) refl row (λ r. refl)
      (start-OperationChecks now attempt o idle room) h
step-MeetsModelChecks {t = t} {t' = t'}
      (schedules now delay attempt completion cost o row busy room) h =
    rewrite-MeetsModelChecks t t' o (schedule_retry now delay completion.observed_failure) refl row
      (λ r. refl) (schedule-OperationChecks now delay completion.observed_failure o busy room) h
step-MeetsModelChecks {t = t} {t' = t'}
      (settles now attempt completion cost settlement result o accounts row busy full released) h =
    rewrite-MeetsModelChecks t t' o (settle_operation now completion settlement result) refl row
      (λ r. refl) (settle-OperationChecks now completion settlement result o busy full) h

-- Every sequence of calls of the model operation store, by any workers in any order and with any
-- inputs, keeps the primary key of the operations and the CHECK constraints on their retry schedule,
-- their claim and their terminal state, and keeps every operation within its limits of retries and
-- of dispatches.
pub run_model_calls-MeetsModelChecks :
    (cs : List ModelCall) (t : ModelTables)
    → MeetsModelChecks t
    → MeetsModelChecks (run_model_calls cs t)
unfolding run_model_calls
run_model_calls-MeetsModelChecks [] t h = h
run_model_calls-MeetsModelChecks (c ∷ cs) t h =
    run_model_calls-MeetsModelChecks cs (model_call c t)
      (step-MeetsModelChecks (model_call-ModelStep c t) h)
