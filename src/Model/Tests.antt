-- ===== src/Model/Tests.antt =====
-- Runs of packages/domain/src/model/model-operation.ts with a store that counts its calls.
use xpens_go.Prelude.{Bool, String, [], none, suc, true, ℕ, ◌↔◌, ◌∷◌, ◌≡◌, ◌⊎◌}
use xpens_go.Effect.{Effect, err, ok}
use xpens_go.Model.Gateway.{MayRetry, classify_model_gateway_failure, classify_retry}
use xpens_go.Model.Operation.{ModelGateway, ModelOperationStore}
use xpens_go.Model.Prepare.{
  InvalidReason, PrepareError, PrepareInput, PrepareResult, PrepareStoreInput, invalid_request,
  operation_prepared, prepare_model_operation, store_input,
}
use xpens_go.Model.Prepare.Forwards.{IsInvalid, IsSound, prepare_forwards}
use xpens_go.Model.Registry.{openai}
use xpens_go.Model.Types.{
  ClaimModelOperationOutcome, ClaimedModelAttempt, query_slots, rate_limited, scalar,
  schedule_transient_rate_limit, transient,
}

abbrev attempt : ClaimedModelAttempt
attempt = record {
  attempt_id = 5;
  attempt_ordinal = 1;
  operation = query_slots;
  operation_id = 9;
  transient_rate_limit_retry_available = true;
}

abbrev counting_store : ClaimModelOperationOutcome → ModelOperationStore ℕ
counting_store outcome = record {
  claim = λ id calls. (ok outcome, suc calls);
  complete = λ input calls. (ok input.completion, suc calls);
}

abbrev counting_gateway : ModelGateway ℕ
counting_gateway = record { execute = λ a calls. (ok scalar, suc calls) }

abbrev any_date : String → Bool
any_date date = true

classify_retry_example :
    ((classify_model_gateway_failure (rate_limited transient 500) true).retry_plan
      ≡ schedule_transient_rate_limit 500)
    ↔ MayRetry (rate_limited transient 500) true 500
classify_retry_example = classify_retry (rate_limited transient 500) true 500

abbrev question : PrepareInput
question = record {
  budget_policy = none;
  canonical_input = 97 ∷ 8364 ∷ [];
  input_digest = 97 ∷ [];
  operation = query_slots;
  operation_id = 9;
  provider = openai;
  user_id = 3;
}

abbrev counting_prepare : PrepareStoreInput → Effect ℕ PrepareError PrepareResult
counting_prepare input calls = (ok (operation_prepared input.operation_id), suc calls)

prepare_forwards_example :
    ((reason : InvalidReason) × IsInvalid question reason
      × (prepare_model_operation counting_prepare question 0 ≡ (err (invalid_request reason), 0)))
    ⊎ ((prepare_model_operation counting_prepare question 0
          ≡ counting_prepare (store_input question) 0)
        × IsSound (store_input question))
prepare_forwards_example = prepare_forwards counting_prepare question 0
