-- ===== src/Model/Store/Complete.antt =====
-- `complete` of packages/adapters/src/postgres/model-operation-store.ts. `cost` is what the result of
-- the gateway cost, if there is one. A CHECK that an update breaks undoes the transaction.
use xpens_go.Prelude.{
  Bool, List, Option, false, holds, if◌then◌else◌, is_none, leb, ltb, max, none, some, true, ℕ,
  ◌&&◌, ◌+◌,
}
use xpens_go.Effect.{Effect, Result, err, ok}
use xpens_go.Model.Store.Budgets.{release_reservation}
use xpens_go.Model.Store.Claim.{close_operation, is_open, to_completion}
use xpens_go.Model.Store.Rows.{
  AttemptRow, BudgetAccount, ModelTables, Moment, OperationRow, OperationStatus, RetryPlanName,
  attempt_id_of, op_closed, op_dispatched, op_retry_scheduled, operation_id, plan_none,
  plan_transient_429,
}
use xpens_go.Model.Types.{
  CompleteModelOperationInput, ModelAttemptId, ModelCompletionDisposition, ModelOperationCompletion,
  ModelOperationError, ModelRetryPlan, ObservedFailure, Output, explicitly_rejected,
  gateway_failure, model_persistence_unavailable, no_retry, operation_not_found, outcome_unknown,
  refusal, schedule_transient_rate_limit, structured_output_decoding_failed, succeeded, truncated,
}
use xpens_go.Table.{select, update}

-- The provider's delay is at least a second, and a retry that would miss the deadline is dropped.
abbrev pub effective_plan : ℕ → ℕ → ModelRetryPlan → ModelRetryPlan
effective_plan now deadline no_retry = no_retry
effective_plan now deadline (schedule_transient_rate_limit delay) =
    if leb (now + max 1000 delay) deadline
    then schedule_transient_rate_limit (max 1000 delay)
    else no_retry

abbrev pub plan_name : ModelRetryPlan → RetryPlanName
plan_name no_retry = plan_none
plan_name (schedule_transient_rate_limit delay) = plan_transient_429

abbrev pub is_conservatively_billable : ObservedFailure → Bool
is_conservatively_billable (gateway_failure refusal) = true
is_conservatively_billable (gateway_failure truncated) = true
is_conservatively_billable (gateway_failure structured_output_decoding_failed) = true
is_conservatively_billable _ = false

abbrev pub finish_attempt : ℕ → ModelOperationCompletion → Option ℕ → AttemptRow → AttemptRow
finish_attempt now completion cost a =
    if is_open a
    then record a {
      completion_disposition = some completion.disposition;
      observed_failure = completion.observed_failure;
      retry_plan = plan_name completion.retry_plan;
      cost_micro_usd = cost;
      completed_at = some now;
    }
    else a

abbrev pub schedule_retry : ℕ → ℕ → ObservedFailure → OperationRow → OperationRow
schedule_retry now delay failure o = record o {
  status = op_retry_scheduled;
  completion_disposition = some explicitly_rejected;
  observed_failure = failure;
  retry_plan = plan_transient_429;
  retry_not_before = some (now + delay);
  current_attempt_id = none;
  current_lease_until = none;
  transient_rate_limit_retries_used = o.transient_rate_limit_retries_used + 1;
}

abbrev pub is_succeeded : ModelCompletionDisposition → Bool
is_succeeded succeeded = true
is_succeeded _ = false

abbrev pub retains_reservation : ModelCompletionDisposition → Bool
retains_reservation outcome_unknown = true
retains_reservation _ = false

-- The result's cost; without a result, all of the reservation if the provider may bill the failure.
abbrev pub settlement_of : Option ℕ → ObservedFailure → OperationRow → ℕ
settlement_of (some cost) failure o = cost
settlement_of none failure o =
    if is_conservatively_billable failure then o.reserved_cost_micro_usd else 0

abbrev pub settle_operation :
    ℕ → ModelOperationCompletion → ℕ → Option Output → OperationRow → OperationRow
settle_operation now completion settlement result o =
    record (close_operation now completion.disposition completion.observed_failure o) {
      reserved_cost_micro_usd =
          if retains_reservation completion.disposition then o.reserved_cost_micro_usd else 0;
      settled_cost_micro_usd = o.settled_cost_micro_usd + settlement;
      result_json = if is_succeeded completion.disposition then result else none;
    }

abbrev pub settled_with :
    ℕ
    → ModelAttemptId
    → ModelOperationCompletion
    → Option ℕ
    → (OperationRow → OperationRow)
    → OperationRow
    → ModelTables
    → Option (List BudgetAccount)
    → Result ModelOperationError ModelOperationCompletion × ModelTables
settled_with now attempt completion cost f o t none = (err model_persistence_unavailable, t)
settled_with now attempt completion cost f o t (some accounts) = (
  ok completion,
  record t {
    attempts = update attempt_id_of attempt (finish_attempt now completion cost) t.attempts;
    accounts = accounts;
    operations = update operation_id o.id f t.operations;
  },
)

-- A success without a result breaks the CHECK on terminal operations.
abbrev pub lacks_result : ModelCompletionDisposition → Option Output → Bool
lacks_result d result = is_succeeded d && is_none result

unfoldable pub settle :
    ℕ
    → ModelAttemptId
    → ModelOperationCompletion
    → Option ℕ
    → Option Output
    → OperationRow
    → Effect ModelTables ModelOperationError ModelOperationCompletion
settle now attempt completion cost result o t =
    let settlement = settlement_of cost completion.observed_failure o in
    if lacks_result completion.disposition result
    then (err model_persistence_unavailable, t)
    else settled_with now attempt completion cost
        (settle_operation now completion settlement result) o t
        (if retains_reservation completion.disposition
          then some t.accounts
          else release_reservation o settlement t.accounts)

-- The CHECK on the number of retries makes a retry beyond the limit fail.
unfoldable pub schedule :
    ℕ
    → ModelAttemptId
    → ModelOperationCompletion
    → ℕ
    → Option ℕ
    → OperationRow
    → Effect ModelTables ModelOperationError ModelOperationCompletion
schedule now attempt completion delay cost o t =
    if ltb o.transient_rate_limit_retries_used o.transient_rate_limit_retry_limit
    then (
      ok completion,
      record t {
        attempts = update attempt_id_of attempt (finish_attempt now completion cost) t.attempts;
        operations =
            update operation_id o.id (schedule_retry now delay completion.observed_failure)
              t.operations;
      },
    )
    else (err model_persistence_unavailable, t)

abbrev pub complete_planned :
    ℕ
    → CompleteModelOperationInput
    → Option ℕ
    → OperationRow
    → ModelRetryPlan
    → Effect ModelTables ModelOperationError ModelOperationCompletion
complete_planned now input cost o (schedule_transient_rate_limit delay) =
    schedule now input.attempt_id
      (record input.completion { retry_plan = schedule_transient_rate_limit delay }) delay cost o
complete_planned now input cost o no_retry =
    settle now input.attempt_id (record input.completion { retry_plan = no_retry }) cost
      input.result o

abbrev pub is_dispatched : OperationStatus → Bool
is_dispatched op_dispatched = true
is_dispatched _ = false

abbrev pub completed_before :
    Moment
    → OperationRow
    → OperationStatus
    → Effect ModelTables ModelOperationError ModelOperationCompletion
completed_before m o (op_closed d) t = elim (to_completion m o) [
  | none ↦ (err model_persistence_unavailable, t)
  | some completion ↦ (ok completion, t)
]
completed_before m o _ t = (err model_persistence_unavailable, t)

-- The cost of a result that is not there is not there.
abbrev pub cost_of_result : ℕ → Option Output → Option ℕ
cost_of_result cost none = none
cost_of_result cost (some output) = some cost

abbrev pub owns_operation : ModelAttemptId → OperationRow → Bool
owns_operation attempt o = is_dispatched o.status && holds o.current_attempt_id attempt

unfoldable pub complete :
    Moment
    → ℕ
    → CompleteModelOperationInput
    → Effect ModelTables ModelOperationError ModelOperationCompletion
complete m cost input t = elim (select operation_id input.operation_id t.operations) [
  | none ↦ (err operation_not_found, t)
  | some o ↦
      if owns_operation input.attempt_id o
      then complete_planned m.now input (cost_of_result cost input.result) o
          (effective_plan m.now o.deadline_at input.completion.retry_plan) t
      else completed_before m o o.status t
]
