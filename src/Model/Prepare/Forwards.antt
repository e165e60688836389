-- ===== src/Model/Prepare/Forwards.antt =====
-- What `prepareModelOperation` (packages/domain/src/model/model-operation.ts) lets through to its
-- store.
use xpens_go.Prelude.{
  All, Bool-cases, List, [], arith, count, false, inl, inr, leb, length, ltb, refl, true, ℕ, ◌+◌,
  ◌<◌, ◌∷◌, ◌≡◌, ◌≤◌, ◌⊎◌,
}
use xpens_go.Effect.{Effect, err}
use xpens_go.Model.Prepare.{
  InvalidReason, PrepareError, PrepareInput, PrepareResult, PrepareStoreInput, all_hex,
  bad_input_digest, bad_input_size, invalid_request, is_model_input_digest, policy_name,
  prepare_model_operation, store_input, utf8_byte_length,
}
use xpens_go.Model.Registry.{
  ModelBudgetPolicyName, alpha, development_staging, model_budget_policies,
  model_operation_profiles,
}
use xpens_go.Model.Types.{
  ModelOperationName, query_slots, transaction_extract, transaction_extract_many,
}

-- UTF-8 gives every code point a byte, one more from 0x80, one more from 0x800, and one more from
-- 0x10000.
abbrev pub bytes_of : List ℕ → ℕ
bytes_of cs = length cs + count (leb 0x80) cs + count (leb 0x800) cs + count (leb 0x10000) cs

-- From 0 to 9, or from a to f.
abbrev pub IsHex : ℕ → Type 0
IsHex c = ((48 ≤ c) × (c ≤ 57)) ⊎ ((97 ≤ c) × (c ≤ 102))

-- 64 digits in base 16, the letters small.
abbrev pub IsDigest : List ℕ → Type 0
IsDigest cs = (length cs ≡ 64) × All IsHex cs

-- A request that the store may trust: its input has at least one character and fits its profile in
-- UTF-8, its digest is one, and what it reserves fits the month of its user, which fits that of the
-- environment.
pub record IsSound (input : PrepareStoreInput) : Type 0 where
  pub nonempty : 1 ≤ length input.canonical_input
  pub fits : bytes_of input.canonical_input ≤ input.profile.maximum_input_utf8_bytes
  pub digest : IsDigest input.input_digest
  pub reserved : input.reserved_cost_micro_usd ≤ input.user_monthly_ceiling_micro_usd
  pub ceilings : input.user_monthly_ceiling_micro_usd ≤ input.environment_monthly_ceiling_micro_usd
  pub billable : input.profile.maximum_potentially_billable_attempts ≡ 1
  pub timeout :
      input.profile.provider_timeout_milliseconds ≤ input.profile.total_deadline_milliseconds

utf8_byte_length_lem : (cs : List ℕ) → utf8_byte_length cs ≡ bytes_of cs
unfolding utf8_byte_length
utf8_byte_length_lem [] = refl
utf8_byte_length_lem (c ∷ cs) = ground (arith, utf8_byte_length_lem cs)

all_hex-All : (cs : List ℕ) → all_hex cs ≡ true → All IsHex cs
all_hex-All [] h = tt
all_hex-All (c ∷ cs) h = (ground arith, all_hex-All cs (ground arith))

All-all_hex : (cs : List ℕ) → All IsHex cs → all_hex cs ≡ true
All-all_hex [] h = refl
All-all_hex (c ∷ cs) (here, h) = ground (arith, here, All-all_hex cs h)

is_model_input_digest-IsDigest : (cs : List ℕ) → is_model_input_digest cs ≡ true → IsDigest cs
unfolding is_model_input_digest
is_model_input_digest-IsDigest cs h = (ground arith, all_hex-All cs (ground arith))

IsDigest-is_model_input_digest : (cs : List ℕ) → IsDigest cs → is_model_input_digest cs ≡ true
unfolding is_model_input_digest
IsDigest-is_model_input_digest cs (size, h) = ground (arith, size, All-all_hex cs h)

reserved_fits :
    (operation : ModelOperationName) (name : ModelBudgetPolicyName)
    → (model_operation_profiles operation).maximum_cost_micro_usd
      ≤ (model_budget_policies name).user_monthly_ceiling_micro_usd
reserved_fits query_slots alpha = omega arith
reserved_fits query_slots development_staging = omega arith
reserved_fits transaction_extract alpha = omega arith
reserved_fits transaction_extract development_staging = omega arith
reserved_fits transaction_extract_many alpha = omega arith
reserved_fits transaction_extract_many development_staging = omega arith

user_fits :
    (name : ModelBudgetPolicyName)
    → (model_budget_policies name).user_monthly_ceiling_micro_usd
      ≤ (model_budget_policies name).environment_monthly_ceiling_micro_usd
user_fits alpha = omega arith
user_fits development_staging = omega arith

one_billable :
    (operation : ModelOperationName)
    → ((model_operation_profiles operation).maximum_potentially_billable_attempts ≡ 1)
      × ((model_operation_profiles operation).provider_timeout_milliseconds
          ≤ (model_operation_profiles operation).total_deadline_milliseconds)
one_billable query_slots = (refl, omega arith)
one_billable transaction_extract = (refl, omega arith)
one_billable transaction_extract_many = (refl, omega arith)

store_input-IsSound :
    (input : PrepareInput)
    → ltb (length input.canonical_input) 1 ≡ false
    → ltb
        (model_operation_profiles input.operation).maximum_input_utf8_bytes
        (utf8_byte_length input.canonical_input)
      ≡ false
    → is_model_input_digest input.input_digest ≡ true
    → IsSound (store_input input)
unfolding store_input
store_input-IsSound input some_text fits hex =
    let name = policy_name input.budget_policy in
    record {
      nonempty = ground arith;
      fits = ground (arith, utf8_byte_length_lem input.canonical_input);
      digest = is_model_input_digest-IsDigest input.input_digest hex;
      reserved = ground (arith, reserved_fits input.operation name);
      ceilings = ground (arith, user_fits name);
      billable = (one_billable input.operation).0;
      timeout = (one_billable input.operation).1;
    }

-- Why a request is invalid.
abbrev pub IsInvalid : PrepareInput → InvalidReason → Type 0
IsInvalid input bad_input_size =
    (length input.canonical_input ≡ 0)
    ⊎ ((model_operation_profiles input.operation).maximum_input_utf8_bytes
        < bytes_of input.canonical_input)
IsInvalid input bad_input_digest = ¬ (IsDigest input.input_digest)

-- A request is either refused as invalid, and then its text is empty or has too many bytes in UTF-8,
-- or its digest is not 64 small digits in base 16, with the store untouched; or it is handed to the
-- store, sound: its text is not empty and its bytes fit its profile, its digest is 64 such digits,
-- and its reservation fits the ceilings.
pub prepare_forwards :
    {S : Type 0} (prepare : PrepareStoreInput → Effect S PrepareError PrepareResult)
    (input : PrepareInput) (s : S)
    → ((reason : InvalidReason) × IsInvalid input reason
        × (prepare_model_operation prepare input s ≡ (err (invalid_request reason), s)))
      ⊎ ((prepare_model_operation prepare input s ≡ prepare (store_input input) s)
          × IsSound (store_input input))
unfolding prepare_model_operation
prepare_forwards prepare input s = elim (Bool-cases (ltb (length input.canonical_input) 1)) [
  | inl empty ↦ inl (bad_input_size, inl (ground arith), rw empty refl)
  | inr some_text ↦
      elim (Bool-cases (
        ltb (model_operation_profiles input.operation).maximum_input_utf8_bytes
          (utf8_byte_length input.canonical_input))) [
            | inl long ↦ inl (
              bad_input_size,
              inr (ground (arith, utf8_byte_length_lem input.canonical_input)),
              rw (some_text, long) refl,
            )
            | inr fits ↦ elim (Bool-cases (is_model_input_digest input.input_digest)) [
              | inr bad ↦ inl (
                bad_input_digest,
                (λ d.
                    absurd
                      (ground (arith, bad, IsDigest-is_model_input_digest input.input_digest d))),
                rw (some_text, fits, bad) refl,
              )
              | inl hex ↦
                  inr (rw (some_text, fits, hex) refl, store_input-IsSound input some_text fits hex)
            ]
          ]
]
