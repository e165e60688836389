-- ===== src/Model/Steps/Final.antt =====
-- A closed operation stays as it is: packages/adapters/src/postgres/model-operation-store.ts.
use xpens_go.Prelude.{
  ==_iff, Bool-cases, List, Option, [], arith, false, inl, inr, none, refl, some, subst, sym, true,
  ◌==◌, ◌∙◌, ◌∷◌, ◌≡◌,
}
use xpens_go.Model.Checks.{is_closed}
use xpens_go.Model.Checks.Kept.{dispatched-is_closed, idle-is_closed}
use xpens_go.Model.Prepare.{PrepareStoreInput}
use xpens_go.Model.Steps.{
  IsOperation, ModelCall, ModelStep, copies, expires, idles, inserts, model_call, rejects,
  rejects_undispatched, run_model_calls, schedules, settles, starts,
}
use xpens_go.Model.Steps.Consistent.{prepared_tables-operations, restarted_tables-operations}
use xpens_go.Model.Steps.Refinement.{model_call-ModelStep}
use xpens_go.Model.Store.Claim.{
  close_operation, reject_operation, reject_undispatched, start_attempt,
}
use xpens_go.Model.Store.Complete.{schedule_retry, settle_operation}
use xpens_go.Model.Store.Prepare.{insert_operation, new_operation, restarted_operation}
use xpens_go.Model.Store.Rows.{ModelTables, OperationRow, operation_id}
use xpens_go.Model.Types.{attempt_lease_expired, outcome_unknown}
use xpens_go.Table.{KeepsKey, select, update}
use xpens_go.Table.Laws.{select-update_ne}

abbrev pub IsClosedAs : OperationRow → List OperationRow → Type 0
IsClosedAs o operations =
    (select operation_id o.id operations ≡ some o) × (is_closed o.status ≡ true)

update-IsClosedAs :
    (s : OperationRow) (t : ModelTables) (o : OperationRow) (f : OperationRow → OperationRow)
    → IsOperation t o
    → KeepsKey operation_id f
    → is_closed o.status ≡ false
    → IsClosedAs s t.operations
    → IsClosedAs s (update operation_id o.id f t.operations)
update-IsClosedAs s t o f row keep live (found, closed) = elim (Bool-cases (s.id == o.id)) [
  | inl here ↦
      let own = (==_iff s.id o.id).0 here in
      let same : some s ≡ some o =
        sym found ∙ (subst (λ x. select operation_id x t.operations ≡ some o) (sym own) row) in
      let status : s.status ≡ o.status = cc same in absurd (ground (arith, status))
  | inr there ↦ (select-update_ne operation_id o.id s.id f keep there t.operations ∙ found, closed)
]

insert-IsClosedAs :
    (s o : OperationRow) (t t₁ : ModelTables)
    → select operation_id o.id t.operations ≡ none
    → t₁.operations ≡ t.operations
    → IsClosedAs s t.operations
    → IsClosedAs s (insert_operation o t₁).operations
insert-IsClosedAs s o t t₁ absent operations (found, closed) = elim (Bool-cases (o.id == s.id)) [
  | inl here ↦
      let own = (==_iff o.id s.id).0 here in
      let missing : select operation_id s.id t.operations ≡ none =
        subst (λ x. select operation_id x t.operations ≡ none) own absent in
      absurd (ground (arith, missing, found))
  | inr there ↦ (rw (there, operations) found, closed)
]

step-IsClosedAs :
    {from : Option PrepareStoreInput} {t t' : ModelTables} (s : OperationRow)
    → ModelStep from t t'
    → IsClosedAs s t.operations
    → IsClosedAs s t'.operations
step-IsClosedAs s idles h = h
step-IsClosedAs {t = t} s (inserts m input t₁ whence absent made) h =
    insert-IsClosedAs s (new_operation m input) t t₁ absent
      (prepared_tables-operations m input t t₁ made).0 h
step-IsClosedAs {t = t} s (copies m input source t₁ row absent unknown_outcome room made) h =
    insert-IsClosedAs s (restarted_operation m input source) t t₁ absent
      (restarted_tables-operations m source t t₁ made).0 h
step-IsClosedAs {t = t} s (expires now attempt o row busy own) h =
    update-IsClosedAs s t o (close_operation now outcome_unknown attempt_lease_expired) row
      (λ r. refl) (dispatched-is_closed o.status busy) h
step-IsClosedAs {t = t} s (rejects now failure o accounts row idle released) h =
    update-IsClosedAs s t o (reject_operation now failure) row (λ r. refl)
      (idle-is_closed o.status idle) h
step-IsClosedAs {t = t} s (rejects_undispatched now failure o accounts row idle released) h =
    update-IsClosedAs s t o (reject_undispatched now failure) row (λ r. refl)
      (idle-is_closed o.status idle) h
step-IsClosedAs {t = t} s (starts now attempt o counters row idle room fresh) h =
    update-IsClosedAs s t o (start_attempt now attempt) row (λ r. refl)
      (idle-is_closed o.status idle) h
step-IsClosedAs {t = t} s (schedules now delay attempt completion cost o row busy room) h =
    update-IsClosedAs s t o (schedule_retry now delay completion.observed_failure) row (λ r. refl)
      (dispatched-is_closed o.status busy) h
step-IsClosedAs {t = t} s
      (settles now attempt completion cost settlement result o accounts row busy full released) h =
    update-IsClosedAs s t o (settle_operation now completion settlement result) row (λ r. refl)
      (dispatched-is_closed o.status busy) h

-- An operation that is closed, with any disposition, keeps its row, as it is, over every sequence of
-- calls of the store: its result is never replaced, and it is never dispatched again.
pub closed_stays :
    (cs : List ModelCall) (t : ModelTables) (o : OperationRow)
    → select operation_id o.id t.operations ≡ some o
    → is_closed o.status ≡ true
    → select operation_id o.id (run_model_calls cs t).operations ≡ some o
unfolding run_model_calls
closed_stays [] t o found closed = found
closed_stays (c ∷ cs) t o found closed =
    let (found', closed') = step-IsClosedAs o (model_call-ModelStep c t) (found, closed) in
    closed_stays cs (model_call c t) o found' closed'
