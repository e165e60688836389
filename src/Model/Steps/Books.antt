-- ===== src/Model/Steps/Books.antt =====
-- The budget accounts balance over every sequence of calls: packages/adapters/src/postgres/
-- model-operation-store.ts.
use xpens_go.Prelude.{
  All, Bool-cases, List, Option, [], arith, inl, inr, refl, subst, sym, ℕ, ◌∷◌, ◌≡◌,
}
use xpens_go.Model.Checks.{MeetsModelChecks}
use xpens_go.Model.Prepare.{PrepareInput, PrepareStoreInput, store_input}
use xpens_go.Model.Steps.{
  ModelCall, ModelStep, copies, expires, idles, input_of, inserts, model_call, rejects,
  rejects_undispatched, run_model_calls, schedules, settles, starts,
}
use xpens_go.Model.Steps.Consistent.{step-MeetsModelChecks}
use xpens_go.Model.Steps.Ledger.{
  AllPay, PaysItsWay, copied-Balances, inserted-Balances, kept-Balances, released-Balances,
}
use xpens_go.Model.Steps.Refinement.{model_call-ModelStep}
use xpens_go.Model.Steps.Reservations.{Balances}
use xpens_go.Model.Store.Claim.{
  close_operation, reject_operation, reject_undispatched, start_attempt,
}
use xpens_go.Model.Store.Complete.{retains_reservation, schedule_retry, settle_operation}
use xpens_go.Model.Store.Rows.{AccountScope, ModelTables, operation_id}
use xpens_go.Model.Types.{attempt_lease_expired, outcome_unknown}
use xpens_go.Table.{HasUniqueKeys}

step-Balances :
    {from : Option PrepareStoreInput} {t t' : ModelTables} (scope : AccountScope) (period : ℕ)
    → ModelStep from t t'
    → AllPay from
    → HasUniqueKeys operation_id t.operations
    → Balances scope period t
    → Balances scope period t'
step-Balances scope period idles pay u h = h
step-Balances {t = t} scope period (inserts m input t₁ whence absent made) pay u h =
    inserted-Balances scope period m input t t₁ (subst AllPay whence pay) made h
step-Balances {t = t} scope period (copies m input source t₁ row absent unknown_outcome room made)
      pay u h =
    copied-Balances scope period m input source t t₁ made h
step-Balances {t = t} {t' = t'} scope period (expires now attempt o row busy own) pay u h =
    kept-Balances scope period t t' o (close_operation now outcome_unknown attempt_lease_expired)
      refl row u refl refl h
step-Balances {t = t} {t' = t'} scope period (rejects now failure o accounts row idle released) pay
      u h =
    released-Balances scope period t t' o 0 (reject_operation now failure) refl row u refl released
      h
step-Balances {t = t} {t' = t'} scope period
      (rejects_undispatched now failure o accounts row idle released) pay u h =
    released-Balances scope period t t' o 0 (reject_undispatched now failure) refl row u refl
      released h
step-Balances {t = t} {t' = t'} scope period (starts now attempt o counters row idle room fresh) pay
      u h =
    kept-Balances scope period t t' o (start_attempt now attempt) refl row u refl refl h
step-Balances {t = t} {t' = t'} scope period
      (schedules now delay attempt completion cost o row busy room) pay u h =
    kept-Balances scope period t t' o (schedule_retry now delay completion.observed_failure) refl
      row u refl refl h
step-Balances {t = t} {t' = t'} scope period
      (settles now attempt completion cost settlement result o accounts row busy full released) pay
      u h =
    let f = settle_operation now completion settlement result in
    elim (Bool-cases (retains_reservation completion.disposition)) [
      | inl retained ↦
          let same : t.accounts ≡ accounts = ground (arith, released, retained) in
          kept-Balances scope period t t' o f refl row u (sym same) (rw retained refl) h
      | inr freed ↦
          released-Balances scope period t t' o settlement f refl row u (rw freed refl)
            (ground (arith, released, freed)) h
    ]

-- Over every sequence of calls of the store in which no free provider asks for a reservation, what is
-- reserved on each account, of an environment or of a user and in each month, stays the sum of what
-- the operations that are paid from it have reserved. It is given that the tables at the start meet
-- the CHECKs and balance.
pub run_model_calls-Balances :
    (scope : AccountScope) (period : ℕ) (cs : List ModelCall) (t : ModelTables)
    → All (λ c. AllPay (input_of c)) cs
    → MeetsModelChecks t
    → Balances scope period t
    → Balances scope period (run_model_calls cs t)
unfolding run_model_calls
run_model_calls-Balances scope period [] t pay checks h = h
run_model_calls-Balances scope period (c ∷ cs) t (pay, pays_later) checks h =
    run_model_calls-Balances scope period cs (model_call c t) pays_later
      (step-MeetsModelChecks (model_call-ModelStep c t) checks)
      (step-Balances scope period (model_call-ModelStep c t) pay checks.unique h)

-- What `prepareModelOperation` passes to the store asks for no reservation with a free provider.
pub store_input-PaysItsWay : (input : PrepareInput) → PaysItsWay (store_input input)
unfolding store_input
store_input-PaysItsWay input free = rw free refl
