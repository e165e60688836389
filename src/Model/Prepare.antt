-- ===== src/Model/Prepare.antt =====
-- `prepareModelOperation` of packages/domain/src/model/model-operation.ts. Texts are lists of code
-- points.
pub mod Forwards
use xpens_go.Prelude.{
  Bool, List, Option, [], false, if◌then◌else◌, leb, length, ltb, none, some, true, ℕ, ◌&&◌, ◌+◌,
  ◌==◌, ◌||◌, ◌∷◌,
}
use xpens_go.Effect.{Effect, err}
use xpens_go.Model.Registry.{
  ModelBudgetPolicyName, ModelOperationProfile, ModelProvider, deterministic, development_staging,
  model_budget_policies, model_operation_profiles, openai,
}
use xpens_go.Model.Types.{ModelOperationId, ModelOperationName}

pub record PrepareInput : Type 0 where
  pub budget_policy : Option ModelBudgetPolicyName
  pub canonical_input : List ℕ
  pub input_digest : List ℕ
  pub operation : ModelOperationName
  pub operation_id : ModelOperationId
  pub provider : ModelProvider
  pub user_id : ℕ

pub record PrepareStoreInput : Type 0 where
  pub canonical_input : List ℕ
  pub daily_dispatch_limit : ℕ
  pub environment_budget_key : ModelBudgetPolicyName
  pub environment_monthly_ceiling_micro_usd : ℕ
  pub explicit_restart_limit : ℕ
  pub input_digest : List ℕ
  pub operation : ModelOperationName
  pub operation_id : ModelOperationId
  pub profile : ModelOperationProfile
  pub provider : ModelProvider
  pub reserved_cost_micro_usd : ℕ
  pub user_id : ℕ
  pub user_monthly_ceiling_micro_usd : ℕ

pub data PrepareResult : Type 0 where
  operation_prepared operation_duplicate : ModelOperationId → PrepareResult

pub data InvalidReason : Type 0 where
  bad_input_digest bad_input_size : InvalidReason

pub data BudgetScope : Type 0 where
  environment_month user_month user_day : BudgetScope

pub data PrepareError : Type 0 where
  invalid_request : InvalidReason → PrepareError
  prepare_budget_exceeded : BudgetScope → PrepareError
  input_conflict : ModelOperationId → PrepareError
  prepare_kill_switch : ModelBudgetPolicyName → PrepareError
  prepare_unavailable : PrepareError

-- The bytes of one code point in UTF-8.
abbrev pub utf8_width : ℕ → ℕ
utf8_width c = if leb c 0x7f then 1 else if leb c 0x7ff then 2 else if leb c 0xffff then 3 else 4

unfoldable pub utf8_byte_length : List ℕ → ℕ
utf8_byte_length [] = 0
utf8_byte_length (c ∷ cs) = utf8_width c + utf8_byte_length cs

-- `[a-f0-9]`
abbrev pub is_hex_digit : ℕ → Bool
is_hex_digit c = (leb 48 c && leb c 57) || (leb 97 c && leb c 102)

abbrev pub all_hex : List ℕ → Bool
all_hex [] = true
all_hex (c ∷ cs) = is_hex_digit c && all_hex cs

-- `/^[a-f0-9]{64}$/`
unfoldable pub is_model_input_digest : List ℕ → Bool
is_model_input_digest cs = length cs == 64 && all_hex cs

abbrev pub uses_provider_budget : ModelProvider → Bool
uses_provider_budget openai = true
uses_provider_budget deterministic = false

abbrev pub policy_name : Option ModelBudgetPolicyName → ModelBudgetPolicyName
policy_name none = development_staging
policy_name (some name) = name

unfoldable pub store_input : PrepareInput → PrepareStoreInput
store_input input =
    let profile = model_operation_profiles input.operation in
    let name = policy_name input.budget_policy in
    let policy = model_budget_policies name in
    let paid = uses_provider_budget input.provider in
    record {
      canonical_input = input.canonical_input;
      daily_dispatch_limit = 20;
      environment_budget_key = name;
      environment_monthly_ceiling_micro_usd = policy.environment_monthly_ceiling_micro_usd;
      explicit_restart_limit = 1;
      input_digest = input.input_digest;
      operation = input.operation;
      operation_id = input.operation_id;
      profile = profile;
      provider = input.provider;
      reserved_cost_micro_usd = if paid then profile.maximum_cost_micro_usd else 0;
      user_id = input.user_id;
      user_monthly_ceiling_micro_usd = if paid then policy.user_monthly_ceiling_micro_usd else 0;
    }

module _ {S : Type 0} (prepare : PrepareStoreInput → Effect S PrepareError PrepareResult) where
  unfoldable pub prepare_model_operation : PrepareInput → Effect S PrepareError PrepareResult
  prepare_model_operation input s =
      let profile = model_operation_profiles input.operation in
      if ltb (length input.canonical_input) 1
        || ltb profile.maximum_input_utf8_bytes (utf8_byte_length input.canonical_input)
      then (err (invalid_request bad_input_size), s)
      else if is_model_input_digest input.input_digest
      then prepare (store_input input) s
      else (err (invalid_request bad_input_digest), s)
