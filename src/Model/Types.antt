-- ===== src/Model/Types.antt =====
-- The vocabulary of packages/domain/src/model/model-gateway.ts and model-operation.ts. UUIDs are
-- numbers; a failure keeps the fields that the code reads.
use xpens_go.Prelude.{Bool, Option, String, ℕ}

abbrev pub ModelOperationId : Type 0
ModelOperationId = ℕ

abbrev pub ModelAttemptId : Type 0
ModelAttemptId = ℕ

pub data ModelOperationName : Type 0 where
  transaction_extract transaction_extract_many query_slots : ModelOperationName

pub data RateLimitClassification : Type 0 where
  transient quota : RateLimitClassification

pub data ModelGatewayError : Type 0 where
  rate_limited : RateLimitClassification → (retry_after_milliseconds : ℕ) → ModelGatewayError
  fixture_missing connection_lost empty_response http_5xx malformed_response : ModelGatewayError
  quota_denied refusal request_rejected truncated deadline_exceeded : ModelGatewayError
  schema_unsupported structured_output_decoding_failed : ModelGatewayError

pub data ModelCompletionDisposition : Type 0 where
  succeeded explicitly_rejected invalid_output outcome_unknown : ModelCompletionDisposition

pub data ModelRetryPlan : Type 0 where
  no_retry : ModelRetryPlan
  schedule_transient_rate_limit : (delay_milliseconds : ℕ) → ModelRetryPlan

-- What a completion says was observed: a failure of the gateway, or one of the store and the domain.
pub data ObservedFailure : Type 0 where
  nothing_observed : ObservedFailure
  gateway_failure : ModelGatewayError → ObservedFailure
  attempt_lease_expired deadline_exceeded_before_dispatch daily_dispatch_limit_exceeded :
      ObservedFailure
  kill_switch_engaged dispatch_limit_exceeded domain_validation_rejected : ObservedFailure

pub record ModelOperationCompletion : Type 0 where
  pub disposition : ModelCompletionDisposition
  pub observed_failure : ObservedFailure
  pub retry_plan : ModelRetryPlan

-- A provider's output, as far as `containsInvalidExtractedDate` reads it. `scalar` is null or no
-- object; a missing field is a `scalar`, and suggestions that are no array are `no_outputs`.
mutual
  pub data Output : Type 0 where
    scalar : Output
    object :
        (is_extracted : Bool)
        → (occurred_on : Option String) → (outcome : Output) → (suggestions : Outputs) → Output

  pub data Outputs : Type 0 where
    no_outputs : Outputs
    and_output : Output → Outputs → Outputs

pub record ClaimedModelAttempt : Type 0 where
  pub attempt_id : ModelAttemptId
  pub attempt_ordinal : ℕ
  pub operation : ModelOperationName
  pub operation_id : ModelOperationId
  pub transient_rate_limit_retry_available : Bool

pub data ClaimModelOperationOutcome : Type 0 where
  attempt_claimed : ClaimedModelAttempt → ClaimModelOperationOutcome
  was_completed was_rejected : ModelOperationCompletion → ClaimModelOperationOutcome
  was_deferred : (retry_after_milliseconds : ℕ) → ClaimModelOperationOutcome

pub data ModelOperationError : Type 0 where
  budget_exceeded operation_not_found model_persistence_unavailable : ModelOperationError

pub record CompleteModelOperationInput : Type 0 where
  pub attempt_id : ModelAttemptId
  pub completion : ModelOperationCompletion
  pub operation_id : ModelOperationId
  pub result : Option Output

pub data ExecuteOutcome : Type 0 where
  execution_succeeded : Output → ExecuteOutcome
  execution_failed already_completed : ModelOperationCompletion → ExecuteOutcome
  retry_scheduled execution_deferred : (retry_after_milliseconds : ℕ) → ExecuteOutcome
