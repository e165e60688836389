-- ===== src/Model/Steps/Idempotence.antt =====
-- Preparing an operation twice: packages/adapters/src/postgres/
-- model-operation-store.ts.
use xpens_go.Prelude.{
  ==_iff, ==_refl, Bool-cases, List, Option, Option-cases, [], arith, inl, inr, none, refl, some,
  subst, sym, true, ℕ, ◌==◌, ◌∙◌, ◌∷◌, ◌≡◌,
}
use xpens_go.Effect.{ok}
use xpens_go.Model.Prepare.{PrepareStoreInput, operation_duplicate, operation_prepared}
use xpens_go.Model.Steps.{
  ModelCall, ModelStep, copies, expires, idles, inserts, model_call, prepared_tables, rejects,
  rejects_undispatched, run_model_calls, schedules, settles, starts,
}
use xpens_go.Model.Steps.Consistent.{prepared_tables-operations, restarted_tables-operations}
use xpens_go.Model.Steps.Refinement.{Result-cases, model_call-ModelStep}
use xpens_go.Model.Store.Claim.{
  close_operation, reject_operation, reject_undispatched, start_attempt,
}
use xpens_go.Model.Store.Complete.{schedule_retry, settle_operation}
use xpens_go.Model.Store.Prepare.{
  insert_operation, new_operation, prepare, restarted_operation, same_digest,
}
use xpens_go.Model.Store.Rows.{ModelTables, Moment, OperationRow, operation_id}
use xpens_go.Model.Types.{ModelOperationId, attempt_lease_expired, outcome_unknown}
use xpens_go.Table.{KeepsKey, select, update}
use xpens_go.Table.Laws.{select-update_ne, select-update_self}

-- The operation is known, with this input.
abbrev pub IsKnown : ModelOperationId → List ℕ → List OperationRow → Type 0
IsKnown k digest operations =
    (o : OperationRow) × (select operation_id k operations ≡ some o) × (o.input_digest ≡ digest)

update-IsKnown :
    (k key : ℕ) (digest : List ℕ) (f : OperationRow → OperationRow) (operations : List OperationRow)
    → KeepsKey operation_id f
    → ((o : OperationRow) → (f o).input_digest ≡ o.input_digest)
    → IsKnown k digest operations
    → IsKnown k digest (update operation_id key f operations)
update-IsKnown k key digest f operations keep same (o, found, known) =
    elim (Bool-cases (k == key)) [
      | inl here ↦
          let own = (==_iff k key).0 here in
          (
            f o,
            subst (λ x. select operation_id k (update operation_id x f operations) ≡ some (f o)) own
                (rw (select-update_self operation_id k f keep operations, found) refl),
            same o ∙ known,
          )
      | inr there ↦ (o, select-update_ne operation_id key k f keep there operations ∙ found, known)
    ]

insert-IsKnown :
    (k : ℕ) (digest : List ℕ) (new : OperationRow) (t t₁ : ModelTables)
    → select operation_id new.id t.operations ≡ none
    → t₁.operations ≡ t.operations
    → IsKnown k digest t.operations
    → IsKnown k digest (insert_operation new t₁).operations
insert-IsKnown k digest new t t₁ absent operations (o, found, known) =
    elim (Bool-cases (new.id == k)) [
      | inl here ↦
          let own = (==_iff new.id k).0 here in
          let missing : select operation_id k t.operations ≡ none =
            subst (λ x. select operation_id x t.operations ≡ none) own absent in
          absurd (ground (arith, missing, found))
      | inr there ↦ (o, rw (there, operations) found, known)
    ]

step-IsKnown :
    {from : Option PrepareStoreInput} {t t' : ModelTables} (k : ℕ) (digest : List ℕ)
    → ModelStep from t t'
    → IsKnown k digest t.operations
    → IsKnown k digest t'.operations
step-IsKnown k digest idles h = h
step-IsKnown {t = t} k digest (inserts m input t₁ whence absent made) h =
    insert-IsKnown k digest (new_operation m input) t t₁ absent
      (prepared_tables-operations m input t t₁ made).0 h
step-IsKnown {t = t} k digest (copies m input source t₁ row absent unknown_outcome room made) h =
    insert-IsKnown k digest (restarted_operation m input source) t t₁ absent
      (restarted_tables-operations m source t t₁ made).0 h
step-IsKnown {t = t} k digest (expires now attempt o row busy own) h =
    update-IsKnown k o.id digest (close_operation now outcome_unknown attempt_lease_expired)
      t.operations (λ r. refl) (λ r. refl) h
step-IsKnown {t = t} k digest (rejects now failure o accounts row idle released) h =
    update-IsKnown k o.id digest (reject_operation now failure) t.operations (λ r. refl) (λ r. refl)
      h
step-IsKnown {t = t} k digest (rejects_undispatched now failure o accounts row idle released) h =
    update-IsKnown k o.id digest (reject_undispatched now failure) t.operations (λ r. refl)
      (λ r. refl) h
step-IsKnown {t = t} k digest (starts now attempt o counters row idle room fresh) h =
    update-IsKnown k o.id digest (start_attempt now attempt) t.operations (λ r. refl) (λ r. refl) h
step-IsKnown {t = t} k digest (schedules now delay attempt completion cost o row busy room) h =
    update-IsKnown k o.id digest (schedule_retry now delay completion.observed_failure) t.operations
      (λ r. refl) (λ r. refl) h
step-IsKnown {t = t} k digest
      (settles now attempt completion cost settlement result o accounts row busy full released) h =
    update-IsKnown k o.id digest (settle_operation now completion settlement result) t.operations
      (λ r. refl) (λ r. refl) h

run_model_calls-IsKnown :
    (k : ℕ) (digest : List ℕ) (cs : List ModelCall) (t : ModelTables)
    → IsKnown k digest t.operations
    → IsKnown k digest (run_model_calls cs t).operations
unfolding run_model_calls
run_model_calls-IsKnown k digest [] t h = h
run_model_calls-IsKnown k digest (c ∷ cs) t h =
    run_model_calls-IsKnown k digest cs (model_call c t)
      (step-IsKnown k digest (model_call-ModelStep c t) h)

same_digest_refl : (xs : List ℕ) → same_digest xs xs ≡ true
same_digest_refl [] = refl
same_digest_refl (x ∷ xs) = ground (arith, ==_refl x, same_digest_refl xs)

-- A prepared operation is known.
prepared-IsKnown :
    (m : Moment) (input : PrepareStoreInput) (id : ℕ) (t t' : ModelTables)
    → prepare m input t ≡ (ok (operation_prepared id), t')
    → (id ≡ input.operation_id) × IsKnown input.operation_id input.input_digest t'.operations
unfolding prepare
prepared-IsKnown m input id t t' h =
    elim (Option-cases (select operation_id input.operation_id t.operations)) [
      | inr (existing, found) ↦
          elim (Bool-cases (same_digest existing.input_digest input.input_digest)) [
            | inl same ↦ absurd (ground (arith, h, found, same))
            | inr other ↦ absurd (ground (arith, h, found, other))
          ]
      | inl absent ↦ elim (Result-cases (prepared_tables m input t)) [
        | inl (e, failed) ↦ absurd (ground (arith, h, absent, failed))
        | inr (t₁, made) ↦
            let done : prepare m input t ≡ (
              ok (operation_prepared input.operation_id),
              insert_operation (new_operation m input) t₁,
            ) =
              rw (absent, made, prepare) refl in
            let same = sym h ∙ done in
            let after : t' ≡ insert_operation (new_operation m input) t₁ = cc same in
            (cc same, rw after (new_operation m input, rw (==_refl input.operation_id) refl, refl))
      ]
    ]

-- Preparing an operation again, with the same input, answers that it is a duplicate and changes
-- nothing, whatever the store was called for in between: however often a request is delivered, the
-- operation is inserted and its budget reserved once.
pub prepare_repeated :
    (m later : Moment) (input : PrepareStoreInput) (id : ℕ) (cs : List ModelCall)
    (t t' : ModelTables)
    → prepare m input t ≡ (ok (operation_prepared id), t')
    → prepare later input (run_model_calls cs t')
      ≡ (ok (operation_duplicate id), run_model_calls cs t')
unfolding prepare
prepare_repeated m later input id cs t t' h =
    let (same, first) = prepared-IsKnown m input id t t' h in
    let (o, found, digest) =
      run_model_calls-IsKnown input.operation_id input.input_digest cs t' first in
    rw (same, found, digest, same_digest_refl input.input_digest, prepare) refl
