-- ===== src/Model/Steps/Restarts.antt =====
-- How often the operations of one lineage are restarted: packages/adapters/src/postgres/
-- model-operation-store.ts.
use xpens_go.Prelude.{
  ==_iff, All, Bool-cases, List, Option, [], arith, count, false, inl, inr, leb, none, refl, some,
  subst, ℕ, ◌==◌, ◌∷◌, ◌≡◌, ◌≤◌,
}
use xpens_go.Model.Prepare.{PrepareStoreInput}
use xpens_go.Model.Steps.{
  ModelCall, ModelStep, copies, expires, idles, input_of, inserts, model_call, rejects,
  rejects_undispatched, run_model_calls, schedules, settles, starts,
}
use xpens_go.Model.Steps.Consistent.{prepared_tables-operations, restarted_tables-operations}
use xpens_go.Model.Steps.Refinement.{model_call-ModelStep}
use xpens_go.Model.Store.Claim.{
  close_operation, reject_operation, reject_undispatched, start_attempt,
}
use xpens_go.Model.Store.Complete.{schedule_retry, settle_operation}
use xpens_go.Model.Store.Prepare.{is_restart_of}
use xpens_go.Model.Store.Rows.{ModelTables, OperationRow, operation_id}
use xpens_go.Model.Types.{ModelOperationId, attempt_lease_expired, outcome_unknown}
use xpens_go.Table.{KeepsKey, update}
use xpens_go.Table.Counts.{count-update_same}
use xpens_go.Table.Laws.{select-All, update-All}

abbrev pub LimitsRestarts : ℕ → OperationRow → Type 0
LimitsRestarts limit o = o.explicit_restart_limit ≤ limit

abbrev pub restarts_of : ModelOperationId → ModelTables → ℕ
restarts_of root t = count (is_restart_of root) t.operations

pub record RestartsWithin (root : ModelOperationId) (limit : ℕ) (t : ModelTables) : Type 0 where
  pub limits : All (LimitsRestarts limit) t.operations
  pub bounded : restarts_of root t ≤ limit

-- An update that keeps the lineage and the limit of every operation.
abbrev KeepsLineage : (OperationRow → OperationRow) → Type 0
KeepsLineage f =
    (root : ModelOperationId) (o : OperationRow)
    → (is_restart_of root (f o) ≡ is_restart_of root o)
      × ((f o).explicit_restart_limit ≡ o.explicit_restart_limit)

rewrite-RestartsWithin :
    (root limit : ℕ) (t t' : ModelTables) (o : OperationRow) (f : OperationRow → OperationRow)
    → t'.operations ≡ update operation_id o.id f t.operations
    → KeepsKey operation_id f
    → KeepsLineage f
    → RestartsWithin root limit t
    → RestartsWithin root limit t'
rewrite-RestartsWithin root limit t t' o f operations key keep h = record {
  limits = rw operations (
      update-All operation_id (LimitsRestarts limit) o.id f t.operations
        (λ r b. let (lineage, same) = keep root r in omega (arith, same, b)) h.limits);
  bounded =
      rw
        (
          operations,
          count-update_same operation_id (is_restart_of root) o.id f t.operations
              (λ r. let (lineage, same) = keep root r in lineage),
        )
        h.bounded;
}

-- The input of a call asks for no higher limit.
abbrev pub KeepsRestartLimit : ℕ → Option PrepareStoreInput → Type 0
KeepsRestartLimit limit none = Unit
KeepsRestartLimit limit (some input) = input.explicit_restart_limit ≤ limit

step-RestartsWithin :
    {from : Option PrepareStoreInput} {t t' : ModelTables} (root limit : ℕ)
    → ModelStep from t t'
    → KeepsRestartLimit limit from
    → RestartsWithin root limit t
    → RestartsWithin root limit t'
step-RestartsWithin root limit idles b h = h
step-RestartsWithin {t = t} root limit (inserts m input t₁ whence absent made) b h =
    let (operations, attempts) = prepared_tables-operations m input t t₁ made in
    record {
      limits = rw operations (subst (KeepsRestartLimit limit) whence b, h.limits);
      bounded = rw operations (ground (arith, h.bounded));
    }
step-RestartsWithin {t = t} root limit
      (copies m input source t₁ row absent unknown_outcome room made) b h =
    let (operations, attempts) = restarted_tables-operations m source t t₁ made in
    let within =
      select-All operation_id (LimitsRestarts limit) source.id t.operations source h.limits row in
    record {
      limits = rw operations (within, h.limits);
      bounded = rw operations (elim (Bool-cases (source.root_operation_id == root)) [
        | inl here ↦
            let own = (==_iff source.root_operation_id root).0 here in
            let few : leb source.explicit_restart_limit (restarts_of root t) ≡ false =
              subst (λ x. leb source.explicit_restart_limit (restarts_of x t) ≡ false) own room in
            rw here (ground (arith, few, within))
        | inr there ↦ rw there h.bounded
      ]);
    }
step-RestartsWithin {t = t} {t' = t'} root limit (expires now attempt o row busy own) b h =
    rewrite-RestartsWithin root limit t t' o
      (close_operation now outcome_unknown attempt_lease_expired) refl (λ r. refl)
      (λ k r. (refl, refl)) h
step-RestartsWithin {t = t} {t' = t'} root limit (rejects now failure o accounts row idle released)
      b h =
    rewrite-RestartsWithin root limit t t' o (reject_operation now failure) refl (λ r. refl)
      (λ k r. (refl, refl)) h
step-RestartsWithin {t = t} {t' = t'} root limit
      (rejects_undispatched now failure o accounts row idle released) b h =
    rewrite-RestartsWithin root limit t t' o (reject_undispatched now failure) refl (λ r. refl)
      (λ k r. (refl, refl)) h
step-RestartsWithin {t = t} {t' = t'} root limit (starts now attempt o counters row idle room fresh)
      b h =
    rewrite-RestartsWithin root limit t t' o (start_attempt now attempt) refl (λ r. refl)
      (λ k r. (refl, refl)) h
step-RestartsWithin {t = t} {t' = t'} root limit
      (schedules now delay attempt completion cost o row busy room) b h =
    rewrite-RestartsWithin root limit t t' o (schedule_retry now delay completion.observed_failure)
      refl (λ r. refl) (λ k r. (refl, refl)) h
step-RestartsWithin {t = t} {t' = t'} root limit
      (settles now attempt completion cost settlement result o accounts row busy full released) b
      h =
    rewrite-RestartsWithin root limit t t' o (settle_operation now completion settlement result)
      refl (λ r. refl) (λ k r. (refl, refl)) h

-- Over every sequence of calls of the store in which no prepared operation has a restart limit above
-- `limit`, a lineage is restarted at most `limit` times, restarts of restarts included, given that
-- this holds at the start and that no operation there has a higher limit.
pub run_model_calls-RestartsWithin :
    (root limit : ℕ) (cs : List ModelCall) (t : ModelTables)
    → All (λ c. KeepsRestartLimit limit (input_of c)) cs
    → RestartsWithin root limit t
    → RestartsWithin root limit (run_model_calls cs t)
unfolding run_model_calls
run_model_calls-RestartsWithin root limit [] t b h = h
run_model_calls-RestartsWithin root limit (c ∷ cs) t (b, bs) h =
    run_model_calls-RestartsWithin root limit cs (model_call c t) bs
      (step-RestartsWithin root limit (model_call-ModelStep c t) b h)
