-- ===== src/Model/Store/Prepare.antt =====
-- `prepare` and `restart` of packages/adapters/src/postgres/model-operation-store.ts. A transaction is
-- one step, so that the second look at the operation, once the accounts are locked, finds what the
-- first found.
use xpens_go.Prelude.{
  Bool, List, [], count, false, holds, if◌then◌else◌, is_none, leb, ltb, none, not, some, true, ℕ,
  ◌&&◌, ◌+◌, ◌==◌, ◌∷◌,
}
use xpens_go.Effect.{Effect, Result, err, ok}
use xpens_go.Model.Prepare.{
  PrepareError, PrepareResult, PrepareStoreInput, input_conflict, operation_duplicate,
  operation_prepared,
}
use xpens_go.Model.Store.Budgets.{Reservation, has_no_reservation, reserve}
use xpens_go.Model.Store.Rows.{
  ModelTables, Moment, OperationRow, OperationStatus, op_closed, op_prepared, operation_id,
  plan_none,
}
use xpens_go.Model.Types.{ModelOperationId, nothing_observed, outcome_unknown}
use xpens_go.Table.{select}

abbrev pub same_digest : List ℕ → List ℕ → Bool
same_digest [] [] = true
same_digest [] (y ∷ ys) = false
same_digest (x ∷ xs) [] = false
same_digest (x ∷ xs) (y ∷ ys) = x == y && same_digest xs ys

-- The same of every profile of the registry.
abbrev pub transient_rate_limit_retries : ℕ
transient_rate_limit_retries = 1

abbrev pub new_operation : Moment → PrepareStoreInput → OperationRow
new_operation m input = record {
  id = input.operation_id;
  root_operation_id = input.operation_id;
  restarted_from_operation_id = none;
  user_id = input.user_id;
  operation = input.operation;
  input_digest = input.input_digest;
  canonical_input = input.canonical_input;
  provider = input.provider;
  status = op_prepared;
  completion_disposition = none;
  observed_failure = nothing_observed;
  retry_plan = plan_none;
  retry_not_before = none;
  current_attempt_id = none;
  current_lease_until = none;
  deadline_at = m.now + input.profile.total_deadline_milliseconds;
  maximum_http_dispatches = input.profile.maximum_http_dispatches;
  http_dispatch_count = 0;
  transient_rate_limit_retry_limit = transient_rate_limit_retries;
  transient_rate_limit_retries_used = 0;
  explicit_restart_limit = input.explicit_restart_limit;
  total_deadline_milliseconds = input.profile.total_deadline_milliseconds;
  daily_dispatch_limit = input.daily_dispatch_limit;
  budget_environment_key = input.environment_budget_key;
  budget_period_start = m.period;
  environment_monthly_ceiling_micro_usd = input.environment_monthly_ceiling_micro_usd;
  user_monthly_ceiling_micro_usd = input.user_monthly_ceiling_micro_usd;
  reserved_cost_micro_usd = input.reserved_cost_micro_usd;
  settled_cost_micro_usd = 0;
  result_json = none;
  completed_at = none;
}

abbrev pub insert_operation : OperationRow → ModelTables → ModelTables
insert_operation o t = record t { operations = o ∷ t.operations }

abbrev pub prepare_reservation : Moment → PrepareStoreInput → Reservation
prepare_reservation m input = record {
  key = input.environment_budget_key;
  user = input.user_id;
  period = m.period;
  environment_ceiling = input.environment_monthly_ceiling_micro_usd;
  user_ceiling = input.user_monthly_ceiling_micro_usd;
  amount = input.reserved_cost_micro_usd;
}

-- A row is inserted once its reservation is made.
abbrev pub inserted_with :
    {A : Type 0}
    → A
    → OperationRow
    → ModelTables
    → Result PrepareError ModelTables
    → Result PrepareError A × ModelTables
inserted_with answer o before (err e) = (err e, before)
inserted_with answer o before (ok after) = (ok answer, insert_operation o after)

unfoldable pub prepare : Moment → PrepareStoreInput → Effect ModelTables PrepareError PrepareResult
prepare m input t = elim (select operation_id input.operation_id t.operations) [
  | some existing ↦
      if same_digest existing.input_digest input.input_digest
      then (ok (operation_duplicate input.operation_id), t)
      else (err (input_conflict input.operation_id), t)
  | none ↦ inserted_with (operation_prepared input.operation_id) (new_operation m input) t (
      if ltb 0 input.reserved_cost_micro_usd then reserve (prepare_reservation m input) t else ok t)
]

pub data RestartError : Type 0 where
  restart_refused : PrepareError → RestartError
  restart_not_found restart_conflict source_not_outcome_unknown restart_limit_exhausted :
      RestartError

pub data RestartResult : Type 0 where
  operation_restarted restart_duplicate : ModelOperationId → RestartResult

pub record RestartInput : Type 0 where
  pub restarted_operation_id : ModelOperationId
  pub source_operation_id : ModelOperationId
  pub user_id : ℕ

abbrev pub is_outcome_unknown : OperationStatus → Bool
is_outcome_unknown (op_closed outcome_unknown) = true
is_outcome_unknown _ = false

abbrev pub is_restart_of : ModelOperationId → OperationRow → Bool
is_restart_of root o = o.root_operation_id == root && not (is_none o.restarted_from_operation_id)

abbrev pub is_same_restart : RestartInput → OperationRow → OperationRow → Bool
is_same_restart input source existing =
    existing.root_operation_id == source.root_operation_id
    && holds existing.restarted_from_operation_id input.source_operation_id
    && existing.user_id == input.user_id

abbrev pub restarted_operation : Moment → RestartInput → OperationRow → OperationRow
restarted_operation m input source = record source {
  id = input.restarted_operation_id;
  restarted_from_operation_id = some source.id;
  status = op_prepared;
  completion_disposition = none;
  observed_failure = nothing_observed;
  retry_plan = plan_none;
  retry_not_before = none;
  current_attempt_id = none;
  current_lease_until = none;
  deadline_at = m.now + source.total_deadline_milliseconds;
  http_dispatch_count = 0;
  transient_rate_limit_retries_used = 0;
  budget_period_start = m.period;
  settled_cost_micro_usd = 0;
  result_json = none;
  completed_at = none;
}

abbrev pub restart_reservation : Moment → OperationRow → Reservation
restart_reservation m source = record {
  key = source.budget_environment_key;
  user = source.user_id;
  period = m.period;
  environment_ceiling = source.environment_monthly_ceiling_micro_usd;
  user_ceiling = source.user_monthly_ceiling_micro_usd;
  amount = source.reserved_cost_micro_usd;
}

abbrev pub as_restart :
    {A : Type 0} → Result PrepareError A × ModelTables → Result RestartError A × ModelTables
as_restart (err e, t) = (err (restart_refused e), t)
as_restart (ok a, t) = (ok a, t)

-- The body of the restarting transaction once its source is read.
unfoldable pub restart_operation :
    Moment → RestartInput → OperationRow → Effect ModelTables RestartError RestartResult
restart_operation m input source t =
    if source.user_id == input.user_id
    then elim (select operation_id input.restarted_operation_id t.operations) [
      | some existing ↦
          if is_same_restart input source existing
          then (ok (restart_duplicate input.restarted_operation_id), t)
          else (err restart_conflict, t)
      | none ↦
          if is_outcome_unknown source.status
          then (if leb source.explicit_restart_limit
                (count (is_restart_of source.root_operation_id) t.operations)
              then (err restart_limit_exhausted, t)
              else as_restart (
                  inserted_with (operation_restarted input.restarted_operation_id)
                    (restarted_operation m input source) t
                    (if has_no_reservation source
                      then ok t
                      else reserve (restart_reservation m source) t)))
          else (err source_not_outcome_unknown, t)
    ]
    else (err restart_not_found, t)

unfoldable pub restart : Moment → RestartInput → Effect ModelTables RestartError RestartResult
restart m input t = elim (select operation_id input.source_operation_id t.operations) [
  | none ↦ (err restart_not_found, t)
  | some source ↦ restart_operation m input source t
]
