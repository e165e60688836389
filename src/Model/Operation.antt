-- ===== src/Model/Operation.antt =====
-- `executePreparedModelOperation` of packages/domain/src/model/model-operation.ts, over the store and
-- the gateway that it is given. Whether a text is a calendar date is asked of JavaScript's `Date`,
-- which is the parameter `valid_date`; the output schema is the gateway's affair.
pub mod Outcomes
use xpens_go.Prelude.{Bool, Option, String, false, if◌then◌else◌, none, not, some, true, ◌||◌}
use xpens_go.Effect.{Effect, Result, either, err, ok, succeed, ◌>>=◌, ◌>>◌}
use xpens_go.Model.Gateway.{classify_model_gateway_failure}
use xpens_go.Model.Types.{
  ClaimModelOperationOutcome, ClaimedModelAttempt, CompleteModelOperationInput, ExecuteOutcome,
  ModelGatewayError, ModelOperationCompletion, ModelOperationError, ModelOperationId,
  ModelRetryPlan, Output, Outputs, already_completed, and_output, attempt_claimed,
  domain_validation_rejected, execution_deferred, execution_failed, execution_succeeded,
  invalid_output, no_outputs, no_retry, nothing_observed, object, retry_scheduled, scalar,
  schedule_transient_rate_limit, succeeded, was_completed, was_deferred, was_rejected,
}

unfoldable mutual
  pub contains_invalid_extracted_date : (String → Bool) → Output → Bool
  contains_invalid_extracted_date valid_date scalar = false
  contains_invalid_extracted_date valid_date (object true (some date) outcome suggestions) =
      not (valid_date date)
  contains_invalid_extracted_date valid_date (object true none outcome suggestions) =
      contains_invalid_extracted_date valid_date outcome || any_invalid valid_date suggestions
  contains_invalid_extracted_date valid_date (object false date outcome suggestions) =
      contains_invalid_extracted_date valid_date outcome || any_invalid valid_date suggestions

  pub any_invalid : (String → Bool) → Outputs → Bool
  any_invalid valid_date no_outputs = false
  any_invalid valid_date (and_output output outputs) =
      contains_invalid_extracted_date valid_date output || any_invalid valid_date outputs

pub record ModelOperationStore (S : Type 0) : Type 0 where
  pub claim : ModelOperationId → Effect S ModelOperationError ClaimModelOperationOutcome
  pub complete : CompleteModelOperationInput → Effect S ModelOperationError ModelOperationCompletion

pub record ModelGateway (S : Type 0) : Type 0 where
  pub execute : ClaimedModelAttempt → Effect S ModelGatewayError Output

abbrev pub success : ModelOperationCompletion
success = record {
  disposition = succeeded;
  observed_failure = nothing_observed;
  retry_plan = no_retry;
}

abbrev pub domain_rejection : ModelOperationCompletion
domain_rejection = record {
  disposition = invalid_output;
  observed_failure = domain_validation_rejected;
  retry_plan = no_retry;
}

abbrev pub completion_of :
    ModelOperationId
    → ClaimedModelAttempt
    → ModelOperationCompletion
    → Option Output
    → CompleteModelOperationInput
completion_of id attempt completion result = record {
  attempt_id = attempt.attempt_id;
  completion = completion;
  operation_id = id;
  result = result;
}

-- The plan that the store kept decides what the caller is told.
abbrev pub report_failure : ModelOperationCompletion → ModelRetryPlan → ExecuteOutcome
report_failure completion (schedule_transient_rate_limit delay) = retry_scheduled delay
report_failure completion no_retry = execution_failed completion

module _ {S : Type 0} (store : ModelOperationStore S) (gateway : ModelGateway S)
    (valid_date : String → Bool) where
  unfoldable pub store_result :
      ModelOperationId
      → ClaimedModelAttempt
      → Result ModelGatewayError Output
      → Effect S ModelOperationError ExecuteOutcome
  store_result id attempt (err failure) = do
    completion ← store.complete (
        completion_of id attempt
          (classify_model_gateway_failure failure attempt.transient_rate_limit_retry_available)
          none)
    succeed (report_failure completion completion.retry_plan)
  store_result id attempt (ok output) =
      if contains_invalid_extracted_date valid_date output
      then store.complete (completion_of id attempt domain_rejection (some output))
        >>= (λ completion. succeed (execution_failed completion))
      else store.complete (completion_of id attempt success (some output))
        >> succeed (execution_succeeded output)

  unfoldable pub run_claim :
      ModelOperationId → ClaimModelOperationOutcome → Effect S ModelOperationError ExecuteOutcome
  run_claim id (was_completed completion) = succeed (already_completed completion)
  run_claim id (was_rejected completion) = succeed (execution_failed completion)
  run_claim id (was_deferred delay) = succeed (execution_deferred delay)
  run_claim id (attempt_claimed attempt) = do
    result ← either (gateway.execute attempt)
    store_result id attempt result

  unfoldable pub execute_prepared_model_operation :
      ModelOperationId → Effect S ModelOperationError ExecuteOutcome
  execute_prepared_model_operation id = do claim ← store.claim id; run_claim id claim
