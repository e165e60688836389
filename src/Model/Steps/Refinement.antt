-- ===== src/Model/Steps/Refinement.antt =====
-- Preparing, completing and restarting take the steps too, and so does every call:
-- packages/adapters/src/postgres/model-operation-store.ts.
use xpens_go.Prelude.{
  Bool-cases, Option, Option-cases, arith, count, inl, inr, leb, ltb, none, refl, some, true, ℕ,
  ◌==◌, ◌≡◌, ◌⊎◌,
}
use xpens_go.Effect.{Result, err, ok}
use xpens_go.Model.Prepare.{PrepareStoreInput}
use xpens_go.Model.Steps.{
  IsOperation, ModelCall, ModelStep, claims_one, completes_one, copies, idles, input_of, inserts,
  model_call, prepared_tables, prepares_one, restarted_tables, restarts_one, schedules,
  settled_accounts, settles,
}
use xpens_go.Model.Steps.Calls.{claim-ModelStep, own-IsOperation}
use xpens_go.Model.Store.Claim.{to_completion}
use xpens_go.Model.Store.Complete.{
  complete, complete_planned, completed_before, cost_of_result, effective_plan, is_dispatched,
  lacks_result, owns_operation, schedule, settle, settlement_of,
}
use xpens_go.Model.Store.Prepare.{
  RestartInput, is_outcome_unknown, is_restart_of, is_same_restart, prepare, restart,
  restart_operation, same_digest,
}
use xpens_go.Model.Store.Rows.{
  ModelTables, Moment, OperationRow, OperationStatus, op_closed, op_dispatched, op_prepared,
  op_retry_scheduled, operation_id,
}
use xpens_go.Model.Types.{
  CompleteModelOperationInput, ModelOperationCompletion, ModelRetryPlan, Output, no_retry,
  schedule_transient_rate_limit,
}
use xpens_go.Table.{select}

settle-ModelStep :
    (now attempt : ℕ) (completion : ModelOperationCompletion) (cost : Option ℕ)
    (result : Option Output) (o : OperationRow) (t : ModelTables)
    → IsOperation t o
    → is_dispatched o.status ≡ true
    → ModelStep none t (settle now attempt completion cost result o t).1
unfolding settle
settle-ModelStep now attempt completion cost result o t row busy =
    let settlement = settlement_of cost completion.observed_failure o in
    elim (Bool-cases (lacks_result completion.disposition result)) [
      | inl empty ↦ rw (empty, settle) idles
      | inr full ↦
          elim (Option-cases (settled_accounts o completion.disposition settlement t.accounts)) [
            | inl stuck ↦ rw (full, stuck, settle) idles
            | inr (accounts, released) ↦
                rw (full, released, settle)
                  (settles now attempt completion cost settlement result o accounts row busy full
                    released)
          ]
    ]

schedule-ModelStep :
    (now attempt : ℕ) (completion : ModelOperationCompletion) (delay : ℕ) (cost : Option ℕ)
    (o : OperationRow) (t : ModelTables)
    → IsOperation t o
    → is_dispatched o.status ≡ true
    → ModelStep none t (schedule now attempt completion delay cost o t).1
unfolding schedule
schedule-ModelStep now attempt completion delay cost o t row busy =
    elim (Bool-cases (ltb o.transient_rate_limit_retries_used o.transient_rate_limit_retry_limit)) [
      | inl room ↦ rw (room, schedule) (schedules now delay attempt completion cost o row busy room)
      | inr spent ↦ rw (spent, schedule) idles
    ]

complete_planned-ModelStep :
    (now : ℕ) (input : CompleteModelOperationInput) (cost : Option ℕ) (o : OperationRow)
    (plan : ModelRetryPlan) (t : ModelTables)
    → IsOperation t o
    → is_dispatched o.status ≡ true
    → ModelStep none t (complete_planned now input cost o plan t).1
complete_planned-ModelStep now input cost o (schedule_transient_rate_limit delay) t row busy =
    schedule-ModelStep now input.attempt_id
      (record input.completion { retry_plan = schedule_transient_rate_limit delay }) delay cost o t
      row busy
complete_planned-ModelStep now input cost o no_retry t row busy =
    settle-ModelStep now input.attempt_id (record input.completion { retry_plan = no_retry }) cost
      input.result o t row busy

completed_before-ModelStep :
    (m : Moment) (o : OperationRow) (s : OperationStatus) (t : ModelTables)
    → ModelStep none t (completed_before m o s t).1
completed_before-ModelStep m o (op_closed d) t = elim (Option-cases (to_completion m o)) [
  | inl lost ↦ rw (lost, completed_before) idles
  | inr (completion, found) ↦ rw (found, completed_before) idles
]
completed_before-ModelStep m o op_prepared t = idles
completed_before-ModelStep m o op_dispatched t = idles
completed_before-ModelStep m o op_retry_scheduled t = idles

complete-ModelStep :
    (m : Moment) (cost : ℕ) (input : CompleteModelOperationInput) (t : ModelTables)
    → ModelStep none t (complete m cost input t).1
unfolding complete
complete-ModelStep m cost input t =
    elim (Option-cases (select operation_id input.operation_id t.operations)) [
      | inl missing ↦ rw (missing, complete) idles
      | inr (o, found) ↦ elim (Bool-cases (owns_operation input.attempt_id o)) [
        | inl owned ↦
            rw (found, owned, complete)
              (complete_planned-ModelStep m.now input (cost_of_result cost input.result) o
                (effective_plan m.now o.deadline_at input.completion.retry_plan) t
                (own-IsOperation input.operation_id t o found) (ground arith))
        | inr stale ↦ rw (found, stale, complete) (completed_before-ModelStep m o o.status t)
      ]
    ]

pub Result-cases :
    {E A : Type 0} (r : Result E A) → ((e : E) × (r ≡ err e)) ⊎ ((a : A) × (r ≡ ok a))
Result-cases (err e) = inl (e, refl)
Result-cases (ok a) = inr (a, refl)

prepare-ModelStep :
    (m : Moment) (input : PrepareStoreInput) (t : ModelTables)
    → ModelStep (some input) t (prepare m input t).1
unfolding prepare
prepare-ModelStep m input t =
    elim (Option-cases (select operation_id input.operation_id t.operations)) [
      | inr (existing, found) ↦
          elim (Bool-cases (same_digest existing.input_digest input.input_digest)) [
            | inl same ↦ rw (found, same, prepare) idles
            | inr other ↦ rw (found, other, prepare) idles
          ]
      | inl absent ↦ elim (Result-cases (prepared_tables m input t)) [
        | inl (e, failed) ↦ rw (absent, failed, prepare) idles
        | inr (t₁, made) ↦ rw (absent, made, prepare) (inserts m input t₁ refl absent made)
      ]
    ]

restart_operation-ModelStep :
    (m : Moment) (input : RestartInput) (source : OperationRow) (t : ModelTables)
    → IsOperation t source
    → ModelStep none t (restart_operation m input source t).1
unfolding restart_operation
restart_operation-ModelStep m input source t row =
    elim (Bool-cases (source.user_id == input.user_id)) [
      | inr other ↦ rw (other, restart_operation) idles
      | inl same ↦
          elim (Option-cases (select operation_id input.restarted_operation_id t.operations)) [
            | inr (existing, found) ↦ elim (Bool-cases (is_same_restart input source existing)) [
              | inl again ↦ rw (same, found, again, restart_operation) idles
              | inr conflict ↦ rw (same, found, conflict, restart_operation) idles
            ]
            | inl absent ↦ elim (Bool-cases (is_outcome_unknown source.status)) [
              | inr known ↦ rw (same, absent, known, restart_operation) idles
              | inl unknown_outcome ↦
                  elim (Bool-cases (
                    leb source.explicit_restart_limit
                      (count (is_restart_of source.root_operation_id) t.operations))) [
                        | inl spent ↦
                            rw (same, absent, unknown_outcome, spent, restart_operation) idles
                        | inr room ↦ elim (Result-cases (restarted_tables m source t)) [
                          | inl (e, failed) ↦
                              rw (same, absent, unknown_outcome, room, failed, restart_operation)
                                idles
                          | inr (t₁, made) ↦
                              rw (same, absent, unknown_outcome, room, made, restart_operation)
                                (copies m input source t₁ row absent unknown_outcome room made)
                        ]
                      ]
            ]
          ]
    ]

restart-ModelStep :
    (m : Moment) (input : RestartInput) (t : ModelTables) → ModelStep none t (restart m input t).1
unfolding restart
restart-ModelStep m input t =
    elim (Option-cases (select operation_id input.source_operation_id t.operations)) [
      | inl missing ↦ rw (missing, restart) idles
      | inr (source, found) ↦
          rw (found, restart)
            (restart_operation-ModelStep m input source t
              (own-IsOperation input.source_operation_id t source found))
    ]

-- Every call of the model operation store, whatever it is given and whatever it answers, takes one of
-- the steps of `ModelStep`: it changes nothing, or it is one of the eight changes, under the
-- conditions of that change.
pub model_call-ModelStep :
    (c : ModelCall) (t : ModelTables) → ModelStep (input_of c) t (model_call c t)
unfolding model_call
model_call-ModelStep (prepares_one m input) t = prepare-ModelStep m input t
model_call-ModelStep (claims_one m attempt id) t = claim-ModelStep m attempt id t
model_call-ModelStep (completes_one m cost input) t = complete-ModelStep m cost input t
model_call-ModelStep (restarts_one m input) t = restart-ModelStep m input t
