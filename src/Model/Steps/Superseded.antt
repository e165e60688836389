-- ===== src/Model/Steps/Superseded.antt =====
-- A worker whose attempt is no longer the current one: packages/adapters/src/postgres/
-- model-operation-store.ts.
-- If an attempt is granted, the row of the operation has it as its current one.
use xpens_go.Prelude.{some, ◌≡◌}
use xpens_go.Effect.{Result, err, ok}
use xpens_go.Model.Store.Rows.{ModelTables, OperationRow, op_dispatched, operation_id}
use xpens_go.Model.Types.{
  ClaimModelOperationOutcome, ModelAttemptId, ModelOperationError, attempt_claimed, was_completed,
  was_deferred, was_rejected,
}
use xpens_go.Table.{select}

abbrev pub Grants :
    ModelAttemptId
    → OperationRow
    → Result ModelOperationError ClaimModelOperationOutcome × ModelTables
    → Type 0
Grants attempt o (ok (attempt_claimed c), t) =
    (o' : OperationRow) × (select operation_id o.id t.operations ≡ some o')
    × (o'.status ≡ op_dispatched)
    × (o'.current_attempt_id ≡ some attempt)
Grants attempt o (ok (was_completed c), t) = Unit
Grants attempt o (ok (was_rejected c), t) = Unit
Grants attempt o (ok (was_deferred delay), t) = Unit
Grants attempt o (err error, t) = Unit
