-- ===== src/Model/Steps/Attempts.antt =====
-- How often one operation is dispatched: packages/adapters/src/postgres/model-operation-store.ts.
use xpens_go.Prelude.{
  ==_iff, ==_sym, Bool, Bool-cases, List, Option, [], ap, arith, count, false, inl, inr, none, refl,
  some, subst, sym, true, ℕ, ◌==◌, ◌∙◌, ◌∷◌, ◌≡◌, ◌≤◌,
}
use xpens_go.Model.Checks.{MeetsModelChecks, OperationChecks}
use xpens_go.Model.Prepare.{PrepareStoreInput}
use xpens_go.Model.Steps.{
  IsOperation, ModelCall, ModelStep, copies, expires, idles, inserts, model_call, rejects,
  rejects_undispatched, run_model_calls, schedules, settles, starts,
}
use xpens_go.Model.Steps.Consistent.{
  prepared_tables-operations, restarted_tables-operations, run_model_calls-MeetsModelChecks,
}
use xpens_go.Model.Steps.Refinement.{model_call-ModelStep}
use xpens_go.Model.Store.Claim.{
  close_operation, is_open, lapse_attempt, reject_operation, reject_undispatched, start_attempt,
}
use xpens_go.Model.Store.Complete.{finish_attempt, schedule_retry, settle_operation}
use xpens_go.Model.Store.Prepare.{insert_operation, new_operation, restarted_operation}
use xpens_go.Model.Store.Rows.{AttemptRow, ModelTables, OperationRow, attempt_id_of, operation_id}
use xpens_go.Model.Types.{
  ModelOperationCompletion, ModelOperationId, attempt_lease_expired, outcome_unknown,
}
use xpens_go.Table.{KeepsKey, select, update}
use xpens_go.Table.Counts.{count-update_same}
use xpens_go.Table.Laws.{select-All, select-update_ne, select-update_self}

abbrev pub is_attempt_of : ModelOperationId → AttemptRow → Bool
is_attempt_of k a = a.operation_id == k

abbrev pub dispatches_of : Option OperationRow → ℕ
dispatches_of none = 0
dispatches_of (some o) = o.http_dispatch_count

-- Every dispatch that is counted has its attempt, and every attempt is counted.
abbrev pub DispatchesMatch : ModelOperationId → ModelTables → Type 0
DispatchesMatch k t =
    count (is_attempt_of k) t.attempts ≡ dispatches_of (select operation_id k t.operations)

rewrite-DispatchesMatch :
    (k : ℕ) (t t' : ModelTables) (o : OperationRow) (f : OperationRow → OperationRow)
    → t'.operations ≡ update operation_id o.id f t.operations
    → IsOperation t o
    → KeepsKey operation_id f
    → ((o.id == k) ≡ true
        → count (is_attempt_of k) t.attempts ≡ o.http_dispatch_count
        → count (is_attempt_of k) t'.attempts ≡ (f o).http_dispatch_count)
    → ((o.id == k) ≡ false
        → count (is_attempt_of k) t'.attempts ≡ count (is_attempt_of k) t.attempts)
    → DispatchesMatch k t
    → DispatchesMatch k t'
rewrite-DispatchesMatch k t t' o f operations row keep same other h =
    elim (Bool-cases (o.id == k)) [
      | inl here ↦
          let own = (==_iff o.id k).0 here in
          let at_k : select operation_id k t.operations ≡ some o =
            subst (λ x. select operation_id x t.operations ≡ some o) own row in
          let after : select operation_id k t'.operations ≡ some (f o) =
            subst (λ x. select operation_id x t'.operations ≡ some (f o)) own
              (subst (λ x. select operation_id o.id x ≡ some (f o)) (sym operations)
                (rw (select-update_self operation_id o.id f keep t.operations, row) refl)) in
          rw after
            (same here (subst (λ x. count (is_attempt_of k) t.attempts ≡ dispatches_of x) at_k h))
      | inr there ↦
          let kept : select operation_id k t'.operations ≡ select operation_id k t.operations =
            rw operations (
              select-update_ne operation_id o.id k f keep (ground (arith, ==_sym k o.id))
                t.operations) in
          rw kept (other there ∙ h)
    ]

-- A change that keeps the number of dispatches and the operations of the attempts.
undispatched :
    (k : ℕ) (t t' : ModelTables) (o : OperationRow) (f : OperationRow → OperationRow)
    → t'.operations ≡ update operation_id o.id f t.operations
    → IsOperation t o
    → KeepsKey operation_id f
    → (f o).http_dispatch_count ≡ o.http_dispatch_count
    → count (is_attempt_of k) t'.attempts ≡ count (is_attempt_of k) t.attempts
    → DispatchesMatch k t
    → DispatchesMatch k t'
undispatched k t t' o f operations row keep same attempts h =
    rewrite-DispatchesMatch k t t' o f operations row keep
      (λ here matched. attempts ∙ matched ∙ sym same) (λ there. attempts) h

insert-DispatchesMatch :
    (k : ℕ) (o : OperationRow) (t t₁ : ModelTables)
    → select operation_id o.id t.operations ≡ none
    → (t₁.operations ≡ t.operations) × (t₁.attempts ≡ t.attempts)
    → o.http_dispatch_count ≡ 0
    → DispatchesMatch k t
    → DispatchesMatch k (insert_operation o t₁)
insert-DispatchesMatch k o t t₁ absent (operations, attempts) unsent h =
    elim (Bool-cases (o.id == k)) [
      | inl here ↦
          let own = (==_iff o.id k).0 here in
          let missing : select operation_id k t.operations ≡ none =
            subst (λ x. select operation_id x t.operations ≡ none) own absent in
          let empty : count (is_attempt_of k) t.attempts ≡ 0 =
            subst (λ x. count (is_attempt_of k) t.attempts ≡ dispatches_of x) missing h in
          rw (here, attempts, unsent) empty
      | inr there ↦ rw (there, attempts, operations) h
    ]

finish_attempt-operation :
    (k now : ℕ) (completion : ModelOperationCompletion) (cost : Option ℕ) (a : AttemptRow)
    → is_attempt_of k (finish_attempt now completion cost a) ≡ is_attempt_of k a
finish_attempt-operation k now completion cost a = elim (Bool-cases (is_open a)) [
  | inl live ↦ rw live refl
  | inr done ↦ rw done refl
]

lapse_attempt-operation :
    (k now : ℕ) (a : AttemptRow) → is_attempt_of k (lapse_attempt now a) ≡ is_attempt_of k a
lapse_attempt-operation k now a = elim (Bool-cases (is_open a)) [
  | inl live ↦ rw live refl
  | inr done ↦ rw done refl
]

step-DispatchesMatch :
    {from : Option PrepareStoreInput} {t t' : ModelTables} (k : ℕ)
    → ModelStep from t t'
    → DispatchesMatch k t
    → DispatchesMatch k t'
step-DispatchesMatch k idles h = h
step-DispatchesMatch {t = t} k (inserts m input t₁ whence absent made) h =
    insert-DispatchesMatch k (new_operation m input) t t₁ absent
      (prepared_tables-operations m input t t₁ made) refl h
step-DispatchesMatch {t = t} k (copies m input source t₁ row absent unknown_outcome room made) h =
    insert-DispatchesMatch k (restarted_operation m input source) t t₁ absent
      (restarted_tables-operations m source t t₁ made) refl h
step-DispatchesMatch {t = t} {t' = t'} k (expires now attempt o row busy own) h =
    undispatched k t t' o (close_operation now outcome_unknown attempt_lease_expired) refl row
      (λ r. refl) refl
      (count-update_same attempt_id_of (is_attempt_of k) attempt (lapse_attempt now) t.attempts
        (lapse_attempt-operation k now))
      h
step-DispatchesMatch {t = t} {t' = t'} k (rejects now failure o accounts row idle released) h =
    undispatched k t t' o (reject_operation now failure) refl row (λ r. refl) refl refl h
step-DispatchesMatch {t = t} {t' = t'} k
      (rejects_undispatched now failure o accounts row idle released) h =
    undispatched k t t' o (reject_undispatched now failure) refl row (λ r. refl) refl refl h
step-DispatchesMatch {t = t} {t' = t'} k (starts now attempt o counters row idle room fresh) h =
    rewrite-DispatchesMatch k t t' o (start_attempt now attempt) refl row (λ r. refl)
      (λ here matched. rw here (ground (arith, matched))) (λ there. rw there refl) h
step-DispatchesMatch {t = t} {t' = t'} k
      (schedules now delay attempt completion cost o row busy room) h =
    undispatched k t t' o (schedule_retry now delay completion.observed_failure) refl row
      (λ r. refl) refl
      (count-update_same attempt_id_of (is_attempt_of k) attempt
        (finish_attempt now completion cost) t.attempts
        (finish_attempt-operation k now completion cost))
      h
step-DispatchesMatch {t = t} {t' = t'} k
      (settles now attempt completion cost settlement result o accounts row busy full released) h =
    undispatched k t t' o (settle_operation now completion settlement result) refl row (λ r. refl)
      refl
      (count-update_same attempt_id_of (is_attempt_of k) attempt
        (finish_attempt now completion cost) t.attempts
        (finish_attempt-operation k now completion cost))
      h

run_model_calls-DispatchesMatch :
    (k : ℕ) (cs : List ModelCall) (t : ModelTables)
    → DispatchesMatch k t
    → DispatchesMatch k (run_model_calls cs t)
unfolding run_model_calls
run_model_calls-DispatchesMatch k [] t h = h
run_model_calls-DispatchesMatch k (c ∷ cs) t h =
    run_model_calls-DispatchesMatch k cs (model_call c t)
      (step-DispatchesMatch k (model_call-ModelStep c t) h)

-- Over every sequence of calls of the store, an operation has as many attempts as it counts
-- dispatches, and no more than its maximum, whatever workers, lapsed leases and retries there are,
-- given that the tables at the start meet the CHECKs and that their attempts are counted.
pub attempts_within_maximum :
    (k : ModelOperationId) (cs : List ModelCall) (t : ModelTables) (o : OperationRow)
    → MeetsModelChecks t
    → DispatchesMatch k t
    → select operation_id k (run_model_calls cs t).operations ≡ some o
    → (count (is_attempt_of k) (run_model_calls cs t).attempts ≡ o.http_dispatch_count)
      × (count (is_attempt_of k) (run_model_calls cs t).attempts ≤ o.maximum_http_dispatches)
attempts_within_maximum k cs t o checks matched found =
    let after = run_model_calls cs t in
    let kept = run_model_calls-MeetsModelChecks cs t checks in
    let row = select-All operation_id OperationChecks k after.operations o kept.rows found in
    let counted : count (is_attempt_of k) after.attempts ≡ o.http_dispatch_count =
      run_model_calls-DispatchesMatch k cs t matched ∙ ap dispatches_of found in
    (counted, ground (arith, counted, row.counts))
