-- ===== src/Model/Registry.antt =====
-- The registry of model operations, and their budgets: packages/domain/src/model/model-operation.ts.
-- Costs are in millionths of a dollar.
use xpens_go.Prelude.{ℕ}
use xpens_go.Model.Types.{
  ModelOperationName, query_slots, transaction_extract, transaction_extract_many,
}

-- `ModelOperationProfile`; its fields with one possible value are left out.
pub record ModelOperationProfile : Type 0 where
  pub maximum_cost_micro_usd : ℕ
  pub maximum_http_dispatches : ℕ
  pub maximum_input_utf8_bytes : ℕ
  pub maximum_potentially_billable_attempts : ℕ
  pub output_token_limit : ℕ
  pub provider_timeout_milliseconds : ℕ
  pub total_deadline_milliseconds : ℕ

abbrev pub model_operation_profiles : ModelOperationName → ModelOperationProfile
model_operation_profiles query_slots = record {
  maximum_cost_micro_usd = 480;
  maximum_http_dispatches = 2;
  maximum_input_utf8_bytes = 1200;
  maximum_potentially_billable_attempts = 1;
  output_token_limit = 192;
  provider_timeout_milliseconds = 4000;
  total_deadline_milliseconds = 6000;
}
model_operation_profiles transaction_extract = record {
  maximum_cost_micro_usd = 620;
  maximum_http_dispatches = 2;
  maximum_input_utf8_bytes = 1500;
  maximum_potentially_billable_attempts = 1;
  output_token_limit = 256;
  provider_timeout_milliseconds = 3000;
  total_deadline_milliseconds = 4000;
}
model_operation_profiles transaction_extract_many = record {
  maximum_cost_micro_usd = 3100;
  maximum_http_dispatches = 2;
  maximum_input_utf8_bytes = 7500;
  maximum_potentially_billable_attempts = 1;
  output_token_limit = 1280;
  provider_timeout_milliseconds = 7000;
  total_deadline_milliseconds = 10000;
}

pub data ModelBudgetPolicyName : Type 0 where
  alpha development_staging : ModelBudgetPolicyName

pub record ModelBudgetPolicy : Type 0 where
  pub environment_monthly_ceiling_micro_usd : ℕ
  pub user_monthly_ceiling_micro_usd : ℕ

abbrev pub model_budget_policies : ModelBudgetPolicyName → ModelBudgetPolicy
model_budget_policies alpha = record {
  environment_monthly_ceiling_micro_usd = 5000000;
  user_monthly_ceiling_micro_usd = 250000;
}
model_budget_policies development_staging = record {
  environment_monthly_ceiling_micro_usd = 1000000;
  user_monthly_ceiling_micro_usd = 1000000;
}

pub data ModelProvider : Type 0 where
  deterministic openai : ModelProvider
