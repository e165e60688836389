-- ===== src/Model/Steps.antt =====
-- Sequences of calls of the store, and what a call may do to the tables, as a step relation:
-- packages/adapters/src/postgres/model-operation-store.ts.
pub mod Calls
pub mod Refinement
pub mod Consistent
pub mod Final
pub mod Attempts
pub mod Reservations
pub mod Balances
pub mod Ledger
pub mod Kept
pub mod Superseded
pub mod Books
pub mod Ceilings
pub mod Restarts
pub mod Idempotence
pub mod Answers
use xpens_go.Prelude.{
  Bool, List, Option, [], count, false, if◌then◌else◌, leb, ltb, none, some, true, ℕ, ◌+◌, ◌∷◌, ◌≡◌,
}
use xpens_go.Effect.{Result, ok}
use xpens_go.Model.Prepare.{PrepareError, PrepareStoreInput}
use xpens_go.Model.Store.Budgets.{has_no_reservation, release_reservation, reserve}
use xpens_go.Model.Store.Claim.{
  claim, dispatched, expire, is_attempt_taken, reject_operation, reject_undispatched,
}
use xpens_go.Model.Store.Complete.{
  complete, finish_attempt, is_dispatched, lacks_result, retains_reservation, schedule_retry,
  settle_operation,
}
use xpens_go.Model.Store.Prepare.{
  RestartInput, insert_operation, is_outcome_unknown, is_restart_of, new_operation, prepare,
  prepare_reservation, restart, restart_reservation, restarted_operation,
}
use xpens_go.Model.Store.Rows.{
  BudgetAccount, DispatchCounter, ModelTables, Moment, OperationRow, OperationStatus, attempt_id_of,
  op_closed, op_dispatched, op_prepared, op_retry_scheduled, operation_id,
}
use xpens_go.Model.Types.{
  CompleteModelOperationInput, ModelAttemptId, ModelCompletionDisposition, ModelOperationCompletion,
  ModelOperationId, ObservedFailure, Output,
}
use xpens_go.Table.{select, update}

pub data ModelCall : Type 0 where
  prepares_one : Moment → PrepareStoreInput → ModelCall
  claims_one : Moment → ModelAttemptId → ModelOperationId → ModelCall
  completes_one : Moment → (cost : ℕ) → CompleteModelOperationInput → ModelCall
  restarts_one : Moment → RestartInput → ModelCall

unfoldable pub model_call : ModelCall → ModelTables → ModelTables
model_call (prepares_one m input) t = (prepare m input t).1
model_call (claims_one m attempt id) t = (claim m attempt id t).1
model_call (completes_one m cost input) t = (complete m cost input t).1
model_call (restarts_one m input) t = (restart m input t).1

unfoldable pub run_model_calls : List ModelCall → ModelTables → ModelTables
run_model_calls [] t = t
run_model_calls (c ∷ cs) t = run_model_calls cs (model_call c t)

abbrev pub input_of : ModelCall → Option PrepareStoreInput
input_of (prepares_one m input) = some input
input_of (claims_one m attempt id) = none
input_of (completes_one m cost input) = none
input_of (restarts_one m input) = none

-- The row that a call rewrites is the one that its key selects.
abbrev pub IsOperation : ModelTables → OperationRow → Type 0
IsOperation t o = select operation_id o.id t.operations ≡ some o

-- Nobody works on the operation, and it is not closed.
abbrev pub is_idle : OperationStatus → Bool
is_idle op_prepared = true
is_idle op_retry_scheduled = true
is_idle op_dispatched = false
is_idle (op_closed d) = false

abbrev pub rewrite_operation :
    OperationRow → (OperationRow → OperationRow) → ModelTables → ModelTables
rewrite_operation o f t = record t { operations = update operation_id o.id f t.operations }

abbrev pub finish_in :
    ℕ → ModelAttemptId → ModelOperationCompletion → Option ℕ → ModelTables → ModelTables
finish_in now attempt completion cost t = record t {
  attempts = update attempt_id_of attempt (finish_attempt now completion cost) t.attempts;
}

abbrev pub prepared_tables :
    Moment → PrepareStoreInput → ModelTables → Result PrepareError ModelTables
prepared_tables m input t =
    if ltb 0 input.reserved_cost_micro_usd then reserve (prepare_reservation m input) t else ok t

abbrev pub restarted_tables : Moment → OperationRow → ModelTables → Result PrepareError ModelTables
restarted_tables m source t =
    if has_no_reservation source then ok t else reserve (restart_reservation m source) t

-- What becomes of the accounts when an operation is settled.
abbrev pub settled_accounts :
    OperationRow → ModelCompletionDisposition → ℕ → List BudgetAccount → Option (List BudgetAccount)
settled_accounts o d settlement accounts =
    if retains_reservation d then some accounts else release_reservation o settlement accounts

-- `from` is the input of the call, if it prepares an operation.
pub data ModelStep (from : Option PrepareStoreInput) (t : ModelTables) : ModelTables → Type 0 where
  idles : ModelStep from t t
  inserts :
      (m : Moment) (input : PrepareStoreInput) (t₁ : ModelTables)
      → from ≡ some input
      → select operation_id input.operation_id t.operations ≡ none
      → prepared_tables m input t ≡ ok t₁
      → ModelStep from t (insert_operation (new_operation m input) t₁)
  copies :
      (m : Moment) (input : RestartInput) (source : OperationRow) (t₁ : ModelTables)
      → IsOperation t source
      → select operation_id input.restarted_operation_id t.operations ≡ none
      → is_outcome_unknown source.status ≡ true
      → leb source.explicit_restart_limit
          (count (is_restart_of source.root_operation_id) t.operations)
        ≡ false
      → restarted_tables m source t ≡ ok t₁
      → ModelStep from t (insert_operation (restarted_operation m input source) t₁)
  expires :
      (now : ℕ) (attempt : ModelAttemptId) (o : OperationRow)
      → IsOperation t o
      → is_dispatched o.status ≡ true
      → o.current_attempt_id ≡ some attempt
      → ModelStep from t (expire now attempt o t)
  rejects :
      (now : ℕ) (failure : ObservedFailure) (o : OperationRow) (accounts : List BudgetAccount)
      → IsOperation t o
      → is_idle o.status ≡ true
      → release_reservation o 0 t.accounts ≡ some accounts
      → ModelStep from t
          (rewrite_operation o (reject_operation now failure) (record t { accounts = accounts }))
  rejects_undispatched :
      (now : ℕ) (failure : ObservedFailure) (o : OperationRow) (accounts : List BudgetAccount)
      → IsOperation t o
      → is_idle o.status ≡ true
      → release_reservation o 0 t.accounts ≡ some accounts
      → ModelStep from t
          (rewrite_operation o (reject_undispatched now failure) (record t { accounts = accounts }))
  starts :
      (now : ℕ) (attempt : ModelAttemptId) (o : OperationRow) (counters : List DispatchCounter)
      → IsOperation t o
      → is_idle o.status ≡ true
      → leb o.maximum_http_dispatches o.http_dispatch_count ≡ false
      → is_attempt_taken attempt o.id (o.http_dispatch_count + 1) t.attempts ≡ false
      → ModelStep from t (record (dispatched now attempt o t) { counters = counters })
  schedules :
      (now delay : ℕ) (attempt : ModelAttemptId) (completion : ModelOperationCompletion)
      (cost : Option ℕ) (o : OperationRow)
      → IsOperation t o
      → is_dispatched o.status ≡ true
      → ltb o.transient_rate_limit_retries_used o.transient_rate_limit_retry_limit ≡ true
      → ModelStep from t (
          rewrite_operation o
            (schedule_retry now delay completion.observed_failure)
            (finish_in now attempt completion cost t))
  settles :
      (now : ℕ) (attempt : ModelAttemptId) (completion : ModelOperationCompletion) (cost : Option ℕ)
      (settlement : ℕ) (result : Option Output) (o : OperationRow) (accounts : List BudgetAccount)
      → IsOperation t o
      → is_dispatched o.status ≡ true
      → lacks_result completion.disposition result ≡ false
      → settled_accounts o completion.disposition settlement t.accounts ≡ some accounts
      → ModelStep from t (
          rewrite_operation o
            (settle_operation now completion settlement result)
            (record (finish_in now attempt completion cost t) { accounts = accounts }))
