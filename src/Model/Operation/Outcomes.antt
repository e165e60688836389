-- ===== src/Model/Operation/Outcomes.antt =====
-- What each outcome of `executePreparedModelOperation` (packages/domain/src/model/model-operation.ts)
-- says of the store and the gateway.
use xpens_go.Prelude.{Bool, String, false, some, ◌≡◌}
use xpens_go.Effect.{ok}
use xpens_go.Model.Operation.{
  ModelGateway, ModelOperationStore, completion_of, contains_invalid_extracted_date, success,
}
use xpens_go.Model.Types.{
  ClaimedModelAttempt, ModelOperationCompletion, ModelOperationId, Output, attempt_claimed,
}

-- The provider ran once, its output has no invalid date, and it was handed to the store as the
-- success of its attempt; `answer` is what the store answered.
pub record Succeeded {S : Type 0} (store : ModelOperationStore S) (gateway : ModelGateway S)
    (valid_date : String → Bool) (id : ModelOperationId) (output : Output) (s s' : S) : Type 0 where
  pub attempt : ClaimedModelAttempt
  pub at_claim : S
  pub at_output : S
  pub answer : ModelOperationCompletion
  pub granted : store.claim id s ≡ (ok (attempt_claimed attempt), at_claim)
  pub answered : gateway.execute attempt at_claim ≡ (ok output, at_output)
  pub dates : contains_invalid_extracted_date valid_date output ≡ false
  pub handed_over :
      store.complete (completion_of id attempt success (some output)) at_output ≡ (ok answer, s')
