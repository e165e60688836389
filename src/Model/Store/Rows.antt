-- ===== src/Model/Store/Rows.antt =====
-- The tables of model operations: packages/adapters/src/postgres/migrations/
-- 0011-model-operations.ts.
use xpens_go.Prelude.{Bool, List, Option, ℕ}
use xpens_go.Model.Registry.{ModelBudgetPolicyName, ModelProvider}
use xpens_go.Model.Types.{
  ModelAttemptId, ModelCompletionDisposition, ModelOperationId, ModelOperationName, ObservedFailure,
  Output,
}

-- The database's time and date, the month of its budgets, and the worker's Date.now().
pub record Moment : Type 0 where
  pub now : ℕ
  pub today : ℕ
  pub period : ℕ
  pub clock : ℕ

-- `status`; the status of a terminal operation is the name of its disposition.
pub data OperationStatus : Type 0 where
  op_prepared op_dispatched op_retry_scheduled : OperationStatus
  op_closed : ModelCompletionDisposition → OperationStatus

pub data RetryPlanName : Type 0 where
  plan_none plan_transient_429 : RetryPlanName

-- A row of `model_operations`; `nothing_observed` is NULL.
pub record OperationRow : Type 0 where
  pub id : ModelOperationId
  pub root_operation_id : ModelOperationId
  pub restarted_from_operation_id : Option ModelOperationId
  pub user_id : ℕ
  pub operation : ModelOperationName
  pub input_digest : List ℕ
  pub canonical_input : List ℕ
  pub provider : ModelProvider
  pub status : OperationStatus
  pub completion_disposition : Option ModelCompletionDisposition
  pub observed_failure : ObservedFailure
  pub retry_plan : RetryPlanName
  pub retry_not_before : Option ℕ
  pub current_attempt_id : Option ModelAttemptId
  pub current_lease_until : Option ℕ
  pub deadline_at : ℕ
  pub maximum_http_dispatches : ℕ
  pub http_dispatch_count : ℕ
  pub transient_rate_limit_retry_limit : ℕ
  pub transient_rate_limit_retries_used : ℕ
  pub explicit_restart_limit : ℕ
  pub total_deadline_milliseconds : ℕ
  pub daily_dispatch_limit : ℕ
  pub budget_environment_key : ModelBudgetPolicyName
  pub budget_period_start : ℕ
  pub environment_monthly_ceiling_micro_usd : ℕ
  pub user_monthly_ceiling_micro_usd : ℕ
  pub reserved_cost_micro_usd : ℕ
  pub settled_cost_micro_usd : ℕ
  pub result_json : Option Output
  pub completed_at : Option ℕ

-- A row of `model_attempts`; it is dispatched until it has a disposition.
pub record AttemptRow : Type 0 where
  pub id : ModelAttemptId
  pub operation_id : ModelOperationId
  pub attempt_ordinal : ℕ
  pub leased_until : ℕ
  pub completion_disposition : Option ModelCompletionDisposition
  pub observed_failure : ObservedFailure
  pub retry_plan : RetryPlanName
  pub cost_micro_usd : Option ℕ
  pub completed_at : Option ℕ

-- `scope_type` and `scope_key`.
pub data AccountScope : Type 0 where
  environment_account : ModelBudgetPolicyName → AccountScope
  user_account : (user_id : ℕ) → AccountScope

-- A row of `model_budget_accounts`.
pub record BudgetAccount : Type 0 where
  pub scope : AccountScope
  pub period_start : ℕ
  pub ceiling_micro_usd : ℕ
  pub reserved_micro_usd : ℕ
  pub settled_micro_usd : ℕ
  pub kill_switch : Bool

-- A row of `model_budget_alert_events`.
pub record BudgetAlert : Type 0 where
  pub scope : AccountScope
  pub period_start : ℕ
  pub threshold_percent : ℕ

-- A row of `model_daily_dispatch_counters`.
pub record DispatchCounter : Type 0 where
  pub user_id : ℕ
  pub dispatch_date : ℕ
  pub dispatch_count : ℕ

pub record ModelTables : Type 0 where
  pub operations : List OperationRow
  pub attempts : List AttemptRow
  pub accounts : List BudgetAccount
  pub alerts : List BudgetAlert
  pub counters : List DispatchCounter

abbrev pub operation_id : OperationRow → ModelOperationId
operation_id o = o.id

abbrev pub attempt_id_of : AttemptRow → ModelAttemptId
attempt_id_of a = a.id
