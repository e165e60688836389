-- ===== src/Model/Steps/Calls.antt =====
-- Every call of the store takes one of the steps: packages/adapters/src/postgres/
-- model-operation-store.ts.
use xpens_go.Prelude.{
  Bool-cases, List, Option, Option-cases, false, inl, inr, leb, ltb, none, refl, some, subst, sym,
  true, ℕ, ◌+◌, ◌≡◌,
}
use xpens_go.Model.Prepare.{PrepareStoreInput, uses_provider_budget}
use xpens_go.Model.Steps.{
  IsOperation, ModelStep, expires, idles, is_idle, rejects, rejects_undispatched, starts,
}
use xpens_go.Model.Store.Budgets.{find_account, release_reservation}
use xpens_go.Model.Store.Claim.{
  claim, claim_dispatched, claim_operation, claim_scheduled, count_dispatch, dispatch,
  is_attempt_taken, reject_operation, reject_undispatched, rejected_with, start, start_paid,
  to_completion, was_completed_as,
}
use xpens_go.Model.Store.Complete.{is_dispatched}
use xpens_go.Model.Store.Rows.{
  DispatchCounter, ModelTables, Moment, OperationRow, OperationStatus, environment_account,
  op_closed, op_dispatched, op_prepared, op_retry_scheduled, operation_id,
}
use xpens_go.Model.Types.{
  ModelOperationCompletion, ModelOperationId, ObservedFailure, daily_dispatch_limit_exceeded,
  deadline_exceeded_before_dispatch, dispatch_limit_exceeded, kill_switch_engaged,
}
use xpens_go.Table.{select}
use xpens_go.Table.Laws.{key-select}

pub own-IsOperation :
    (id : ModelOperationId) (t : ModelTables) (o : OperationRow)
    → select operation_id id t.operations ≡ some o
    → IsOperation t o
own-IsOperation id t o found =
    subst (λ x. select operation_id x t.operations ≡ some o)
      (sym (key-select operation_id id t.operations o found)) found

module _ {from : Option PrepareStoreInput} where
  rejected_with-ModelStep :
      (now : ℕ) (failure : ObservedFailure) (o : OperationRow) (t : ModelTables)
      → IsOperation t o
      → is_idle o.status ≡ true
      → ModelStep from t
          (rejected_with
            (reject_operation now failure)
            failure
            o
            t
            (release_reservation o 0 t.accounts)).1
  rejected_with-ModelStep now failure o t row idle =
      elim (Option-cases (release_reservation o 0 t.accounts)) [
        | inl stuck ↦ rw stuck idles
        | inr (accounts, released) ↦ rw released (rejects now failure o accounts row idle released)
      ]

  rejected_undispatched-ModelStep :
      (now : ℕ) (failure : ObservedFailure) (o : OperationRow) (t : ModelTables)
      → IsOperation t o
      → is_idle o.status ≡ true
      → ModelStep from t
          (rejected_with
            (reject_undispatched now failure)
            failure
            o
            t
            (release_reservation o 0 t.accounts)).1
  rejected_undispatched-ModelStep now failure o t row idle =
      elim (Option-cases (release_reservation o 0 t.accounts)) [
        | inl stuck ↦ rw stuck idles
        | inr (accounts, released) ↦
            rw released (rejects_undispatched now failure o accounts row idle released)
      ]

  start-ModelStep :
      (m : Moment) (attempt : ℕ) (o : OperationRow) (counters : List DispatchCounter)
      (t : ModelTables)
      → IsOperation t o
      → is_idle o.status ≡ true
      → leb o.maximum_http_dispatches o.http_dispatch_count ≡ false
      → ModelStep from t (start m attempt o counters t).1
  unfolding start
  start-ModelStep m attempt o counters t row idle room =
      elim (Bool-cases (is_attempt_taken attempt o.id (o.http_dispatch_count + 1) t.attempts)) [
        | inl taken ↦ rw (taken, start) idles
        | inr fresh ↦ rw (fresh, start) (starts m.now attempt o counters row idle room fresh)
      ]

  start_paid-ModelStep :
      (m : Moment) (attempt : ℕ) (o : OperationRow) (t : ModelTables)
      → IsOperation t o
      → is_idle o.status ≡ true
      → leb o.maximum_http_dispatches o.http_dispatch_count ≡ false
      → ModelStep from t (start_paid m attempt o t).1
  unfolding start_paid
  start_paid-ModelStep m attempt o t row idle room =
      elim (Option-cases (
        find_account (environment_account o.budget_environment_key) o.budget_period_start
          t.accounts)) [
            | inl missing ↦ rw (missing, start_paid) idles
            | inr (control, found) ↦ elim (Bool-cases control.kill_switch) [
              | inl killed ↦
                  rw (found, killed, start_paid)
                    (rejected_undispatched-ModelStep m.now kill_switch_engaged o t row idle)
              | inr running ↦
                  elim (Option-cases
                    (count_dispatch o.user_id m.today o.daily_dispatch_limit t.counters)) [
                      | inl spent ↦
                          rw (found, running, spent, start_paid)
                            (rejected_undispatched-ModelStep m.now daily_dispatch_limit_exceeded o t
                              row idle)
                      | inr (counters, counted) ↦
                          rw (found, running, counted, start_paid)
                            (start-ModelStep m attempt o counters t row idle room)
                    ]
            ]
          ]

  dispatch-ModelStep :
      (m : Moment) (attempt : ℕ) (o : OperationRow) (t : ModelTables)
      → IsOperation t o
      → is_idle o.status ≡ true
      → ModelStep from t (dispatch m attempt o t).1
  unfolding dispatch
  dispatch-ModelStep m attempt o t row idle = elim (Bool-cases (leb o.deadline_at m.now)) [
    | inl late ↦
        rw (late, dispatch)
          (rejected_with-ModelStep m.now deadline_exceeded_before_dispatch o t row idle)
    | inr early ↦ elim (Bool-cases (leb o.maximum_http_dispatches o.http_dispatch_count)) [
      | inl spent ↦
          rw (early, spent, dispatch)
            (rejected_with-ModelStep m.now dispatch_limit_exceeded o t row idle)
      | inr room ↦ elim (Bool-cases (uses_provider_budget o.provider)) [
        | inl paid ↦
            rw (early, room, paid, dispatch) (start_paid-ModelStep m attempt o t row idle room)
        | inr free ↦
            rw (early, room, free, dispatch)
              (start-ModelStep m attempt o t.counters t row idle room)
      ]
    ]
  ]

  claim_dispatched-ModelStep :
      (m : Moment) (o : OperationRow) (t : ModelTables) (current : Option ℕ) (lease : Option ℕ)
      → IsOperation t o
      → is_dispatched o.status ≡ true
      → o.current_attempt_id ≡ current
      → ModelStep from t (claim_dispatched m o current lease t).1
  claim_dispatched-ModelStep m o t none lease row busy own = idles
  claim_dispatched-ModelStep m o t (some current) none row busy own = idles
  claim_dispatched-ModelStep m o t (some current) (some lease) row busy own =
      elim (Bool-cases (ltb m.now lease)) [
        | inl held ↦ rw held idles
        | inr lapsed ↦ rw lapsed (expires m.now current o row busy own)
      ]

  claim_scheduled-ModelStep :
      (m : Moment) (attempt : ℕ) (o : OperationRow) (t : ModelTables) (not_before : Option ℕ)
      → IsOperation t o
      → is_idle o.status ≡ true
      → ModelStep from t (claim_scheduled m attempt o not_before t).1
  claim_scheduled-ModelStep m attempt o t none row idle = dispatch-ModelStep m attempt o t row idle
  claim_scheduled-ModelStep m attempt o t (some until) row idle =
      elim (Bool-cases (ltb m.now until)) [
        | inl early ↦ rw early idles
        | inr due ↦ rw due (dispatch-ModelStep m attempt o t row idle)
      ]

  was_completed_as-ModelStep :
      (completion : Option ModelOperationCompletion) (t : ModelTables)
      → ModelStep from t (was_completed_as completion t).1
  was_completed_as-ModelStep none t = idles
  was_completed_as-ModelStep (some completion) t = idles

  claim_operation-ModelStep :
      (m : Moment) (attempt : ℕ) (o : OperationRow) (s : OperationStatus) (t : ModelTables)
      → IsOperation t o
      → o.status ≡ s
      → ModelStep from t (claim_operation m attempt o s t).1
  claim_operation-ModelStep m attempt o (op_closed d) t row own =
      was_completed_as-ModelStep (to_completion m o) t
  claim_operation-ModelStep m attempt o op_dispatched t row own =
      claim_dispatched-ModelStep m o t o.current_attempt_id o.current_lease_until row (rw own refl)
        refl
  claim_operation-ModelStep m attempt o op_retry_scheduled t row own =
      claim_scheduled-ModelStep m attempt o t o.retry_not_before row (rw own refl)
  claim_operation-ModelStep m attempt o op_prepared t row own =
      dispatch-ModelStep m attempt o t row (rw own refl)

  pub claim-ModelStep :
      (m : Moment) (attempt id : ℕ) (t : ModelTables) → ModelStep from t (claim m attempt id t).1
  unfolding claim
  claim-ModelStep m attempt id t = elim (Option-cases (select operation_id id t.operations)) [
    | inl missing ↦ rw (missing, claim) idles
    | inr (o, found) ↦
        rw (found, claim)
          (claim_operation-ModelStep m attempt o o.status t (own-IsOperation id t o found) refl)
  ]
