-- ===== src/Model/Checks/Kept.antt =====
-- The updates of one operation keep its CHECK constraints: packages/adapters/src/postgres/
-- model-operation-store.ts.
use xpens_go.Prelude.{
  Bool, Bool-cases, Option, arith, false, inl, inr, is_none, leb, ltb, refl, some, true, ℕ, ◌≡◌,
}
use xpens_go.Model.Checks.{
  OperationChecks, is_closed, operation_claim_of, same_disposition, terminal_complete_of,
}
use xpens_go.Model.Operation.{success}
use xpens_go.Model.Steps.{is_idle}
use xpens_go.Model.Store.Claim.{close_operation, reject_undispatched, start_attempt}
use xpens_go.Model.Store.Complete.{
  is_dispatched, is_succeeded, lacks_result, schedule_retry, settle_operation,
}
use xpens_go.Model.Store.Rows.{
  OperationRow, OperationStatus, op_closed, op_dispatched, op_prepared, op_retry_scheduled,
}
use xpens_go.Model.Types.{
  ModelCompletionDisposition, ModelOperationCompletion, ObservedFailure, Output,
  explicitly_rejected, invalid_output, outcome_unknown, succeeded,
}

same_disposition_refl : (d : ModelCompletionDisposition) → same_disposition d (some d) ≡ true
same_disposition_refl succeeded = refl
same_disposition_refl explicitly_rejected = refl
same_disposition_refl invalid_output = refl
same_disposition_refl outcome_unknown = refl

pub unclosed-terminal :
    (s : OperationStatus) (d : Option ModelCompletionDisposition) (u e : Bool)
    → is_closed s ≡ false
    → terminal_complete_of s d u e ≡ true
    → (u ≡ true) × (e ≡ true)
unclosed-terminal op_prepared d u e h c = (ground arith, ground arith)
unclosed-terminal op_dispatched d u e h c = (ground arith, ground arith)
unclosed-terminal op_retry_scheduled d u e h c = (ground arith, ground arith)
unclosed-terminal (op_closed closed) d u e h c = cc

-- A terminal update without a result.
pub close-OperationChecks :
    (now : ℕ) (d : ModelCompletionDisposition) (failure : ObservedFailure) (o : OperationRow)
    → is_succeeded d ≡ false
    → is_closed o.status ≡ false
    → OperationChecks o
    → OperationChecks (close_operation now d failure o)
close-OperationChecks now d failure o unsuccessful live c =
    let (u, e) =
      unclosed-terminal o.status o.completion_disposition (is_none o.completed_at)
        (is_none o.result_json) live c.terminal in
    record {
      retry_schedule = refl;
      operation_claim = refl;
      terminal = rw (same_disposition_refl d, unsuccessful, e) refl;
      counts = c.counts;
    }

pub idle-is_closed : (s : OperationStatus) → is_idle s ≡ true → is_closed s ≡ false
idle-is_closed op_prepared h = refl
idle-is_closed op_retry_scheduled h = refl
idle-is_closed op_dispatched h = cc
idle-is_closed (op_closed d) h = cc

pub dispatched-is_closed : (s : OperationStatus) → is_dispatched s ≡ true → is_closed s ≡ false
dispatched-is_closed op_dispatched h = refl
dispatched-is_closed op_prepared h = cc
dispatched-is_closed op_retry_scheduled h = cc
dispatched-is_closed (op_closed d) h = cc

pub idle-claim :
    (s : OperationStatus) (a l : Bool)
    → is_idle s ≡ true
    → operation_claim_of s a l ≡ true
    → (a ≡ true) × (l ≡ true)
idle-claim op_prepared a l h c = (ground arith, ground arith)
idle-claim op_retry_scheduled a l h c = (ground arith, ground arith)
idle-claim op_dispatched a l h c = cc
idle-claim (op_closed d) a l h c = cc

pub reject_undispatched-OperationChecks :
    (now : ℕ) (failure : ObservedFailure) (o : OperationRow)
    → is_idle o.status ≡ true
    → OperationChecks o
    → OperationChecks (reject_undispatched now failure o)
reject_undispatched-OperationChecks now failure o idle c =
    let closed =
      close-OperationChecks now explicitly_rejected failure o refl (idle-is_closed o.status idle)
        c in
    let (a, l) =
      idle-claim o.status (is_none o.current_attempt_id) (is_none o.current_lease_until) idle
        c.operation_claim in
    record {
      retry_schedule = refl;
      operation_claim = rw (a, l) refl;
      terminal = closed.terminal;
      counts = c.counts;
    }

pub start-OperationChecks :
    (now attempt : ℕ) (o : OperationRow)
    → is_idle o.status ≡ true
    → leb o.maximum_http_dispatches o.http_dispatch_count ≡ false
    → OperationChecks o
    → OperationChecks (start_attempt now attempt o)
start-OperationChecks now attempt o idle room c =
    let (u, e) =
      unclosed-terminal o.status o.completion_disposition (is_none o.completed_at)
        (is_none o.result_json) (idle-is_closed o.status idle) c.terminal in
    record {
      retry_schedule = refl;
      operation_claim = refl;
      terminal = rw (u, e) refl;
      counts = ground (arith, c.counts, room);
    }

pub schedule-OperationChecks :
    (now delay : ℕ) (failure : ObservedFailure) (o : OperationRow)
    → is_dispatched o.status ≡ true
    → ltb o.transient_rate_limit_retries_used o.transient_rate_limit_retry_limit ≡ true
    → OperationChecks o
    → OperationChecks (schedule_retry now delay failure o)
schedule-OperationChecks now delay failure o busy room c =
    let (u, e) =
      unclosed-terminal o.status o.completion_disposition (is_none o.completed_at)
        (is_none o.result_json) (dispatched-is_closed o.status busy) c.terminal in
    record {
      retry_schedule = refl;
      operation_claim = refl;
      terminal = rw (u, e) refl;
      counts = ground (arith, c.counts, room);
    }

pub settle-OperationChecks :
    (now : ℕ) (completion : ModelOperationCompletion) (settlement : ℕ) (result : Option Output)
    (o : OperationRow)
    → is_dispatched o.status ≡ true
    → lacks_result completion.disposition result ≡ false
    → OperationChecks o
    → OperationChecks (settle_operation now completion settlement result o)
settle-OperationChecks now completion settlement result o busy full c =
    let d = completion.disposition in
    record {
      retry_schedule = refl;
      operation_claim = refl;
      terminal = rw (same_disposition_refl d) (elim (Bool-cases (is_succeeded d)) [
        | inl success ↦
            let found : is_none result ≡ false = ground (arith, full, success) in
            rw (success, found) refl
        | inr failure ↦ rw failure refl
      ]);
      counts = c.counts;
    }
