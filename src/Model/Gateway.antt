-- ===== src/Model/Gateway.antt =====
-- `classifyModelGatewayFailure` of packages/domain/src/model/model-gateway.ts.
use xpens_go.Prelude.{Bool, arith, false, if◌then◌else◌, leb, true, ℕ, ◌&&◌, ◌↔◌, ◌≡◌, ◌≢◌, ◌≤◌}
use xpens_go.Model.Types.{
  ModelCompletionDisposition, ModelGatewayError, ModelOperationCompletion, ModelRetryPlan,
  RateLimitClassification, connection_lost, deadline_exceeded, empty_response, explicitly_rejected,
  fixture_missing, gateway_failure, http_5xx, invalid_output, malformed_response, no_retry,
  outcome_unknown, quota, quota_denied, rate_limited, refusal, request_rejected,
  schedule_transient_rate_limit, schema_unsupported, structured_output_decoding_failed, transient,
  truncated,
}

abbrev pub is_transient : RateLimitClassification → Bool
is_transient transient = true
is_transient quota = false

-- The dispatch may have reached the provider, and its answer is not known.
abbrev pub is_uncertain : ModelGatewayError → Bool
is_uncertain deadline_exceeded = true
is_uncertain connection_lost = true
is_uncertain empty_response = true
is_uncertain malformed_response = true
is_uncertain http_5xx = true
is_uncertain _ = false

abbrev pub is_unusable : ModelGatewayError → Bool
is_unusable truncated = true
is_unusable structured_output_decoding_failed = true
is_unusable _ = false

abbrev pub classified :
    ModelGatewayError → ModelCompletionDisposition → ModelRetryPlan → ModelOperationCompletion
classified failure disposition plan = record {
  disposition = disposition;
  observed_failure = gateway_failure failure;
  retry_plan = plan;
}

unfoldable pub classify_other : ModelGatewayError → ModelOperationCompletion
classify_other failure =
    if is_uncertain failure
    then classified failure outcome_unknown no_retry
    else if is_unusable failure
    then classified failure invalid_output no_retry
    else classified failure explicitly_rejected no_retry

unfoldable pub classify_model_gateway_failure :
    ModelGatewayError → (retry_available : Bool) → ModelOperationCompletion
classify_model_gateway_failure (rate_limited classification delay) available =
    classified (rate_limited classification delay) explicitly_rejected (
      if is_transient classification && leb delay 1000 && available
      then schedule_transient_rate_limit delay
      else no_retry)
classify_model_gateway_failure failure available = classify_other failure

-- The only failures that a retry may follow.
abbrev pub MayRetry : ModelGatewayError → Bool → ℕ → Type 0
MayRetry failure available delay =
    (failure ≡ rate_limited transient delay) × (delay ≤ 1000) × (available ≡ true)

other-unscheduled :
    (failure : ModelGatewayError) (delay : ℕ)
    → (classify_other failure).retry_plan ≢ schedule_transient_rate_limit delay
unfolding classify_other
other-unscheduled failure delay e = ground arith

-- A retry is scheduled exactly for a transient rate limit whose delay is at most a second, while
-- the operation has its retry left, and then with the provider's delay. No other failure, and above
-- all none after which the provider may have done the work, is ever retried.
pub classify_retry :
    (failure : ModelGatewayError) (available : Bool) (delay : ℕ)
    → ((classify_model_gateway_failure failure available).retry_plan
        ≡ schedule_transient_rate_limit delay)
      ↔ MayRetry failure available delay
unfolding classify_model_gateway_failure
classify_retry (rate_limited transient n) true delay = (λ e. ground arith, λ e. ground arith)
classify_retry (rate_limited transient n) false delay = (λ e. ground arith, λ e. ground arith)
classify_retry (rate_limited quota n) available delay = (λ e. ground arith, λ e. ground arith)
classify_retry fixture_missing available delay =
    (λ e. absurd (other-unscheduled fixture_missing delay e), λ e. ground arith)
classify_retry connection_lost available delay =
    (λ e. absurd (other-unscheduled connection_lost delay e), λ e. ground arith)
classify_retry empty_response available delay =
    (λ e. absurd (other-unscheduled empty_response delay e), λ e. ground arith)
classify_retry http_5xx available delay =
    (λ e. absurd (other-unscheduled http_5xx delay e), λ e. ground arith)
classify_retry malformed_response available delay =
    (λ e. absurd (other-unscheduled malformed_response delay e), λ e. ground arith)
classify_retry quota_denied available delay =
    (λ e. absurd (other-unscheduled quota_denied delay e), λ e. ground arith)
classify_retry refusal available delay =
    (λ e. absurd (other-unscheduled refusal delay e), λ e. ground arith)
classify_retry request_rejected available delay =
    (λ e. absurd (other-unscheduled request_rejected delay e), λ e. ground arith)
classify_retry truncated available delay =
    (λ e. absurd (other-unscheduled truncated delay e), λ e. ground arith)
classify_retry deadline_exceeded available delay =
    (λ e. absurd (other-unscheduled deadline_exceeded delay e), λ e. ground arith)
classify_retry schema_unsupported available delay =
    (λ e. absurd (other-unscheduled schema_unsupported delay e), λ e. ground arith)
classify_retry structured_output_decoding_failed available delay =
    (λ e. absurd (other-unscheduled structured_output_decoding_failed delay e), λ e. ground arith)
