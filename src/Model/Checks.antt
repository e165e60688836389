-- ===== src/Model/Checks.antt =====
-- The CHECK constraints of `model_operations` and its primary key: packages/adapters/src/postgres/
-- migrations/0011-model-operations.ts.
pub mod Kept
use xpens_go.Prelude.{
  All, Bool, Option, false, if◌then◌else◌, is_none, leb, not, some, true, ◌&&◌, ◌≡◌,
}
use xpens_go.Model.Store.Complete.{is_succeeded}
use xpens_go.Model.Store.Rows.{
  ModelTables, OperationRow, OperationStatus, RetryPlanName, op_closed, op_dispatched, op_prepared,
  op_retry_scheduled, operation_id, plan_none, plan_transient_429,
}
use xpens_go.Model.Types.{
  ModelCompletionDisposition, explicitly_rejected, invalid_output, outcome_unknown, succeeded,
}
use xpens_go.Table.{HasUniqueKeys}

abbrev pub is_transient_429 : RetryPlanName → Bool
is_transient_429 plan_none = false
is_transient_429 plan_transient_429 = true

abbrev pub retry_schedule_of : OperationStatus → Bool → Bool → Bool
retry_schedule_of op_retry_scheduled planned unset = planned && not unset
retry_schedule_of op_prepared planned unset = not planned && unset
retry_schedule_of op_dispatched planned unset = not planned && unset
retry_schedule_of (op_closed d) planned unset = not planned && unset

abbrev pub retry_schedule_complete : OperationRow → Bool
retry_schedule_complete o =
    retry_schedule_of o.status (is_transient_429 o.retry_plan) (is_none o.retry_not_before)

abbrev pub operation_claim_of : OperationStatus → Bool → Bool → Bool
operation_claim_of op_dispatched no_attempt no_lease = not no_attempt && not no_lease
operation_claim_of op_prepared no_attempt no_lease = no_attempt && no_lease
operation_claim_of op_retry_scheduled no_attempt no_lease = no_attempt && no_lease
operation_claim_of (op_closed d) no_attempt no_lease = no_attempt && no_lease

abbrev pub operation_claim_complete : OperationRow → Bool
operation_claim_complete o =
    operation_claim_of o.status (is_none o.current_attempt_id) (is_none o.current_lease_until)

abbrev pub same_disposition : ModelCompletionDisposition → Option ModelCompletionDisposition → Bool
same_disposition succeeded (some succeeded) = true
same_disposition explicitly_rejected (some explicitly_rejected) = true
same_disposition invalid_output (some invalid_output) = true
same_disposition outcome_unknown (some outcome_unknown) = true
same_disposition _ _ = false

abbrev pub terminal_complete_of :
    OperationStatus → Option ModelCompletionDisposition → Bool → Bool → Bool
terminal_complete_of op_prepared d unfinished empty = is_none d && (unfinished && empty)
terminal_complete_of op_dispatched d unfinished empty = is_none d && (unfinished && empty)
terminal_complete_of op_retry_scheduled d unfinished empty =
    same_disposition explicitly_rejected d && (unfinished && empty)
terminal_complete_of (op_closed closed) d unfinished empty =
    same_disposition closed d
    && (not unfinished && (if is_succeeded closed then not empty else empty))

abbrev pub terminal_complete : OperationRow → Bool
terminal_complete o =
    terminal_complete_of o.status o.completion_disposition (is_none o.completed_at)
      (is_none o.result_json)

-- The two counters of `model_operations_counts_valid` that change.
abbrev pub counts_valid : OperationRow → Bool
counts_valid o =
    leb o.transient_rate_limit_retries_used o.transient_rate_limit_retry_limit
    && leb o.http_dispatch_count o.maximum_http_dispatches

abbrev pub is_closed : OperationStatus → Bool
is_closed (op_closed d) = true
is_closed op_prepared = false
is_closed op_dispatched = false
is_closed op_retry_scheduled = false

pub record OperationChecks (o : OperationRow) : Type 0 where
  pub retry_schedule : retry_schedule_complete o ≡ true
  pub operation_claim : operation_claim_complete o ≡ true
  pub terminal : terminal_complete o ≡ true
  pub counts : counts_valid o ≡ true

pub record MeetsModelChecks (t : ModelTables) : Type 0 where
  pub unique : HasUniqueKeys operation_id t.operations
  pub rows : All OperationChecks t.operations
