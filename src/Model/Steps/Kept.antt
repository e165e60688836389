-- ===== src/Model/Steps/Kept.antt =====
-- An unresolved operation keeps its reservation: packages/adapters/src/postgres/
-- model-operation-store.ts.
-- The provider may still have to be paid: the operation goes on, or nobody knows how it ended.
use xpens_go.Prelude.{
  ==_iff, Bool, Bool-cases, List, Option, [], arith, false, if◌then◌else◌, inl, inr, none, refl,
  some, subst, sym, true, ℕ, ◌==◌, ◌∙◌, ◌∷◌, ◌≡◌, ◌⊎◌,
}
use xpens_go.Model.Checks.{is_closed}
use xpens_go.Model.Checks.Kept.{dispatched-is_closed, idle-is_closed}
use xpens_go.Model.Prepare.{PrepareStoreInput}
use xpens_go.Model.Steps.{
  IsOperation, ModelCall, ModelStep, copies, expires, idles, inserts, model_call, rejects,
  rejects_undispatched, run_model_calls, schedules, settles, starts,
}
use xpens_go.Model.Steps.Consistent.{prepared_tables-operations, restarted_tables-operations}
use xpens_go.Model.Steps.Refinement.{model_call-ModelStep}
use xpens_go.Model.Store.Claim.{
  close_operation, reject_operation, reject_undispatched, start_attempt,
}
use xpens_go.Model.Store.Complete.{retains_reservation, schedule_retry, settle_operation}
use xpens_go.Model.Store.Prepare.{insert_operation, new_operation, restarted_operation}
use xpens_go.Model.Store.Rows.{
  ModelTables, OperationRow, OperationStatus, op_closed, op_dispatched, op_prepared,
  op_retry_scheduled, operation_id,
}
use xpens_go.Model.Types.{
  ModelCompletionDisposition, ModelOperationId, attempt_lease_expired, explicitly_rejected,
  invalid_output, outcome_unknown, succeeded,
}
use xpens_go.Table.{KeepsKey, select, update}
use xpens_go.Table.Laws.{select-update_ne, select-update_self}

abbrev pub is_unresolved : OperationStatus → Bool
is_unresolved op_prepared = true
is_unresolved op_retry_scheduled = true
is_unresolved op_dispatched = true
is_unresolved (op_closed outcome_unknown) = true
is_unresolved (op_closed d) = false

-- What operation `k` has reserved, as long as it is unresolved, is `amount`.
abbrev pub Keeps : ModelOperationId → ℕ → List OperationRow → Type 0
Keeps k amount operations =
    (o : OperationRow) × (select operation_id k operations ≡ some o)
    × (is_unresolved o.status ≡ true → o.reserved_cost_micro_usd ≡ amount)

live-is_unresolved : (s : OperationStatus) → is_closed s ≡ false → is_unresolved s ≡ true
live-is_unresolved op_prepared h = refl
live-is_unresolved op_retry_scheduled h = refl
live-is_unresolved op_dispatched h = refl
live-is_unresolved (op_closed d) h = absurd (ground arith)

-- A row that is rewritten was live before.
update-Keeps :
    (k amount : ℕ) (t : ModelTables) (o : OperationRow) (f : OperationRow → OperationRow)
    → IsOperation t o
    → KeepsKey operation_id f
    → is_closed o.status ≡ false
    → (is_unresolved (f o).status ≡ true
        → (f o).reserved_cost_micro_usd ≡ o.reserved_cost_micro_usd)
    → Keeps k amount t.operations
    → Keeps k amount (update operation_id o.id f t.operations)
update-Keeps k amount t o f row keep live same (s, found, kept) = elim (Bool-cases (k == o.id)) [
  | inl here ↦
      let own = (==_iff k o.id).0 here in
      let at_k : select operation_id k t.operations ≡ some o =
        subst (λ x. select operation_id x t.operations ≡ some o) (sym own) row in
      let its_row : some s ≡ some o = sym found ∙ at_k in
      let it : s ≡ o = cc its_row in
      let before : o.reserved_cost_micro_usd ≡ amount =
        subst (λ x. is_unresolved x.status ≡ true → x.reserved_cost_micro_usd ≡ amount) it kept
          (live-is_unresolved o.status live) in
      (
        f o,
        subst (λ x. select operation_id x (update operation_id o.id f t.operations) ≡ some (f o))
            (sym own) (rw (select-update_self operation_id o.id f keep t.operations, row) refl),
        λ unresolved. same unresolved ∙ before,
      )
  | inr there ↦ (s, select-update_ne operation_id o.id k f keep there t.operations ∙ found, kept)
]

insert-Keeps :
    (k amount : ℕ) (o : OperationRow) (t t₁ : ModelTables)
    → select operation_id o.id t.operations ≡ none
    → t₁.operations ≡ t.operations
    → Keeps k amount t.operations
    → Keeps k amount (insert_operation o t₁).operations
insert-Keeps k amount o t t₁ absent operations (s, found, kept) = elim (Bool-cases (o.id == k)) [
  | inl here ↦
      let own = (==_iff o.id k).0 here in
      let missing : select operation_id k t.operations ≡ none =
        subst (λ x. select operation_id x t.operations ≡ none) own absent in
      absurd (ground (arith, missing, found))
  | inr there ↦ (s, rw (there, operations) found, kept)
]

settle-reserved :
    (d : ModelCompletionDisposition) (reserved : ℕ)
    → is_unresolved (op_closed d) ≡ true
    → (if retains_reservation d then reserved else 0) ≡ reserved
settle-reserved outcome_unknown reserved h = refl
settle-reserved succeeded reserved h = absurd (ground arith)
settle-reserved explicitly_rejected reserved h = absurd (ground arith)
settle-reserved invalid_output reserved h = absurd (ground arith)

step-Keeps :
    {from : Option PrepareStoreInput} {t t' : ModelTables} (k amount : ℕ)
    → ModelStep from t t'
    → Keeps k amount t.operations
    → Keeps k amount t'.operations
step-Keeps k amount idles h = h
step-Keeps {t = t} k amount (inserts m input t₁ whence absent made) h =
    insert-Keeps k amount (new_operation m input) t t₁ absent
      (prepared_tables-operations m input t t₁ made).0 h
step-Keeps {t = t} k amount (copies m input source t₁ row absent unknown_outcome room made) h =
    insert-Keeps k amount (restarted_operation m input source) t t₁ absent
      (restarted_tables-operations m source t t₁ made).0 h
step-Keeps {t = t} k amount (expires now attempt o row busy own) h =
    update-Keeps k amount t o (close_operation now outcome_unknown attempt_lease_expired) row
      (λ r. refl) (dispatched-is_closed o.status busy) (λ e. refl) h
step-Keeps {t = t} k amount (rejects now failure o accounts row idle released) h =
    update-Keeps k amount t o (reject_operation now failure) row (λ r. refl)
      (idle-is_closed o.status idle) (λ e. absurd (ground arith)) h
step-Keeps {t = t} k amount (rejects_undispatched now failure o accounts row idle released) h =
    update-Keeps k amount t o (reject_undispatched now failure) row (λ r. refl)
      (idle-is_closed o.status idle) (λ e. absurd (ground arith)) h
step-Keeps {t = t} k amount (starts now attempt o counters row idle room fresh) h =
    update-Keeps k amount t o (start_attempt now attempt) row (λ r. refl)
      (idle-is_closed o.status idle) (λ e. refl) h
step-Keeps {t = t} k amount (schedules now delay attempt completion cost o row busy room) h =
    update-Keeps k amount t o (schedule_retry now delay completion.observed_failure) row (λ r. refl)
      (dispatched-is_closed o.status busy) (λ e. refl) h
step-Keeps {t = t} k amount
      (settles now attempt completion cost settlement result o accounts row busy full released) h =
    update-Keeps k amount t o (settle_operation now completion settlement result) row (λ r. refl)
      (dispatched-is_closed o.status busy)
      (λ e. settle-reserved completion.disposition o.reserved_cost_micro_usd e) h

run_model_calls-Keeps :
    (k amount : ℕ) (cs : List ModelCall) (t : ModelTables)
    → Keeps k amount t.operations
    → Keeps k amount (run_model_calls cs t).operations
unfolding run_model_calls
run_model_calls-Keeps k amount [] t h = h
run_model_calls-Keeps k amount (c ∷ cs) t h =
    run_model_calls-Keeps k amount cs (model_call c t)
      (step-Keeps k amount (model_call-ModelStep c t) h)

-- Over every sequence of calls of the store, an operation stays in the table, and keeps what it has
-- reserved until it is resolved: until it is closed, with any disposition but that its outcome is
-- unknown. In particular an operation whose outcome is unknown keeps its reservation.
pub unresolved_keeps_reservation :
    (cs : List ModelCall) (t : ModelTables) (o : OperationRow)
    → select operation_id o.id t.operations ≡ some o
    → (o' : OperationRow) × (select operation_id o.id (run_model_calls cs t).operations ≡ some o')
      × ((is_unresolved o'.status ≡ false)
          ⊎ (o'.reserved_cost_micro_usd ≡ o.reserved_cost_micro_usd))
unresolved_keeps_reservation cs t o found =
    let (o', found', kept) =
      run_model_calls-Keeps o.id o.reserved_cost_micro_usd cs t (o, found, λ e. refl) in
    (
      o',
      found',
      elim (Bool-cases (is_unresolved o'.status)) [
        | inl unresolved ↦ inr (kept unresolved)
        | inr resolved ↦ inl resolved
      ],
    )
