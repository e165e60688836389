-- ===== src/Model/Steps/Answers.antt =====
-- What a completed operation answers afterwards: packages/adapters/src/postgres/
-- model-operation-store.ts.
use xpens_go.Prelude.{
  Bool, Bool-cases, List, Option, Option-cases, ap, arith, inl, inr, is_none, ltb, refl, some,
  subst, sym, true, ℕ, ◌∙◌, ◌≡◌,
}
use xpens_go.Effect.{ok}
use xpens_go.Model.Checks.{
  MeetsModelChecks, OperationChecks, is_closed, is_transient_429, retry_schedule_of,
}
use xpens_go.Model.Steps.{
  IsOperation, ModelCall, finish_in, rewrite_operation, run_model_calls, settled_accounts,
}
use xpens_go.Model.Steps.Calls.{own-IsOperation}
use xpens_go.Model.Steps.Final.{closed_stays}
use xpens_go.Model.Store.Claim.{claim, claim_operation, stored_plan, to_completion}
use xpens_go.Model.Store.Complete.{
  complete, complete_planned, completed_before, cost_of_result, effective_plan, lacks_result,
  owns_operation, schedule, settle, settle_operation, settlement_of,
}
use xpens_go.Model.Store.Rows.{
  ModelTables, Moment, OperationRow, OperationStatus, RetryPlanName, op_closed, op_dispatched,
  op_prepared, op_retry_scheduled, operation_id, plan_none, plan_transient_429,
}
use xpens_go.Model.Types.{
  CompleteModelOperationInput, ModelAttemptId, ModelOperationCompletion, ModelOperationId,
  ModelRetryPlan, Output, no_retry, schedule_transient_rate_limit, was_completed,
}
use xpens_go.Table.{select, update}
use xpens_go.Table.Laws.{key-select, select-All, select-update_self}

-- The stored row says what the completion said.
pub record Says (completion : ModelOperationCompletion) (o : OperationRow) : Type 0 where
  pub closed : is_closed o.status ≡ true
  pub its_disposition : o.completion_disposition ≡ some completion.disposition
  pub its_failure : o.observed_failure ≡ completion.observed_failure
  pub no_plan : o.retry_plan ≡ plan_none

Says-to_completion :
    (m : Moment) (completion : ModelOperationCompletion) (o : OperationRow)
    → Says completion o
    → completion.retry_plan ≡ no_retry
    → to_completion m o ≡ some completion
unfolding to_completion
Says-to_completion m completion o says final =
    rw (says.its_disposition, says.its_failure, says.no_plan, to_completion)
      (ap (λ x. some (record completion { retry_plan = x })) (sym final))

-- A closed operation has no plan, so that its completion does not depend on the time.
closed-no_plan :
    (s : OperationStatus) (plan : RetryPlanName) (unset : Bool)
    → is_closed s ≡ true
    → retry_schedule_of s (is_transient_429 plan) unset ≡ true
    → plan ≡ plan_none
closed-no_plan (op_closed d) plan_none unset h c = refl
closed-no_plan (op_closed d) plan_transient_429 unset h c = cc
closed-no_plan op_prepared plan unset h c = cc
closed-no_plan op_dispatched plan unset h c = cc
closed-no_plan op_retry_scheduled plan unset h c = cc

stored-Says :
    (m : Moment) (completion : ModelOperationCompletion) (o : OperationRow)
    → is_closed o.status ≡ true
    → OperationChecks o
    → to_completion m o ≡ some completion
    → Says completion o
unfolding to_completion
stored-Says m completion o closed checks h = elim (Option-cases o.completion_disposition) [
  | inl absent ↦ absurd (ground (arith, h, absent))
  | inr (d, present) ↦
      let stored : record {
        disposition = d;
        observed_failure = o.observed_failure;
        retry_plan = stored_plan m.clock o.retry_plan o.retry_not_before;
      }
          ≡ completion =
        ground (arith, h, present) in
      record {
        closed = closed;
        its_disposition = present ∙ ap (λ c. some c.disposition) stored;
        its_failure = ap (λ c. c.observed_failure) stored;
        no_plan =
            closed-no_plan o.status o.retry_plan (is_none o.retry_not_before) closed
              checks.retry_schedule;
      }
]

abbrev Answers : ModelOperationId → ModelOperationCompletion → ModelTables → Type 0
Answers k completion t =
    (o : OperationRow) × (select operation_id k t.operations ≡ some o)
    × (o.id ≡ k)
    × Says completion o

settle-Answers :
    (now attempt : ℕ) (completion answer : ModelOperationCompletion) (cost : Option ℕ)
    (result : Option Output) (o : OperationRow) (t t' : ModelTables)
    → IsOperation t o
    → settle now attempt completion cost result o t ≡ (ok answer, t')
    → Answers o.id answer t'
unfolding settle
settle-Answers now attempt completion answer cost result o t t' row h =
    let settlement = settlement_of cost completion.observed_failure o in
    let f = settle_operation now completion settlement result in
    elim (Bool-cases (lacks_result completion.disposition result)) [
      | inl empty ↦ absurd (ground (arith, h, empty))
      | inr full ↦
          elim (Option-cases (settled_accounts o completion.disposition settlement t.accounts)) [
            | inl stuck ↦ absurd (ground (arith, h, full, stuck))
            | inr (accounts, released) ↦
                let done : settle now attempt completion cost result o t ≡ (
                  ok completion,
                  rewrite_operation o f
                      (record (finish_in now attempt completion cost t) { accounts = accounts }),
                ) =
                  rw (full, released, settle) refl in
                let same = sym h ∙ done in
                let answers : answer ≡ completion = cc same in
                let after : t'.operations ≡ update operation_id o.id f t.operations = cc same in
                (
                  f o,
                  subst (λ x. select operation_id o.id x ≡ some (f o)) (sym after)
                      (rw (select-update_self operation_id o.id f (λ r. refl) t.operations, row)
                        refl),
                  refl,
                  subst (λ x. Says x (f o)) (sym answers)
                      (record {
                        closed = refl;
                        its_disposition = refl;
                        its_failure = refl;
                        no_plan = refl;
                      }),
                )
          ]
    ]

complete_planned-Answers :
    (now : ℕ) (input : CompleteModelOperationInput) (answer : ModelOperationCompletion)
    (cost : Option ℕ) (o : OperationRow) (plan : ModelRetryPlan) (t t' : ModelTables)
    → IsOperation t o
    → complete_planned now input cost o plan t ≡ (ok answer, t')
    → answer.retry_plan ≡ no_retry
    → Answers o.id answer t'
unfolding schedule
complete_planned-Answers now input answer cost o no_retry t t' row h final =
    settle-Answers now input.attempt_id (record input.completion { retry_plan = no_retry }) answer
      cost input.result o t t' row h
complete_planned-Answers now input answer cost o (schedule_transient_rate_limit delay) t t' row h
      final =
    absurd
      (elim (Bool-cases
        (ltb o.transient_rate_limit_retries_used o.transient_rate_limit_retry_limit)) [
          | inl room ↦
              let same : record input.completion {
                retry_plan = schedule_transient_rate_limit delay;
              }
                  ≡ answer =
                ground (arith, h, room) in
              let plan : schedule_transient_rate_limit delay ≡ no_retry =
                ap (λ c. c.retry_plan) same ∙ final in
              ground (arith, plan)
          | inr spent ↦ ground (arith, h, spent)
        ])

completed_before-Says :
    (m : Moment) (o : OperationRow) (s : OperationStatus) (answer : ModelOperationCompletion)
    (t t' : ModelTables)
    → completed_before m o s t ≡ (ok answer, t')
    → (is_closed s ≡ true) × (t' ≡ t) × (to_completion m o ≡ some answer)
completed_before-Says m o op_prepared answer t t' h = absurd (ground (arith, h))
completed_before-Says m o op_dispatched answer t t' h = absurd (ground (arith, h))
completed_before-Says m o op_retry_scheduled answer t t' h = absurd (ground (arith, h))
completed_before-Says m o (op_closed d) answer t t' h = elim (Option-cases (to_completion m o)) [
  | inl lost ↦ absurd (ground (arith, h, lost))
  | inr (completion, found) ↦
      let after : t' ≡ t = ground (arith, h, found) in
      let same : completion ≡ answer = ground (arith, h, found) in
      (refl, after, found ∙ ap some same)
]

-- A completion that is stored or was stored.
complete-Answers :
    (m : Moment) (cost : ℕ) (input : CompleteModelOperationInput)
    (answer : ModelOperationCompletion) (t t' : ModelTables)
    → MeetsModelChecks t
    → complete m cost input t ≡ (ok answer, t')
    → answer.retry_plan ≡ no_retry
    → Answers input.operation_id answer t'
unfolding complete
complete-Answers m cost input answer t t' checks h final =
    elim (Option-cases (select operation_id input.operation_id t.operations)) [
      | inl missing ↦ absurd (ground (arith, h, missing))
      | inr (o, found) ↦
          let own = key-select operation_id input.operation_id t.operations o found in
          elim (Bool-cases (owns_operation input.attempt_id o)) [
            | inl owned ↦
                subst (λ k. Answers k answer t') own
                  (complete_planned-Answers m.now input answer (cost_of_result cost input.result) o
                    (effective_plan m.now o.deadline_at input.completion.retry_plan) t t'
                    (own-IsOperation input.operation_id t o found)
                    (sym (rw (found, owned, complete) refl) ∙ h) final)
            | inr stale ↦
                let (closed, after, stored) =
                  completed_before-Says m o o.status answer t t'
                    (sym (rw (found, stale, complete) refl) ∙ h) in
                let row =
                  select-All operation_id OperationChecks input.operation_id t.operations o
                    checks.rows found in
                (o, rw after found, own, stored-Says m answer o closed row stored)
          ]
    ]

closed-claim :
    (m : Moment) (attempt : ModelAttemptId) (o : OperationRow) (s : OperationStatus)
    (completion : ModelOperationCompletion) (t : ModelTables)
    → is_closed s ≡ true
    → to_completion m o ≡ some completion
    → claim_operation m attempt o s t ≡ (ok (was_completed completion), t)
closed-claim m attempt o (op_closed d) completion t h stored = rw (stored, claim_operation) refl
closed-claim m attempt o op_prepared completion t h stored = cc
closed-claim m attempt o op_dispatched completion t h stored = cc
closed-claim m attempt o op_retry_scheduled completion t h stored = cc

-- What a completion answers, if it plans no retry, is what every later claim of the operation is
-- told, at any time and whatever the store was called for in between, and such a claim changes
-- nothing, as long as the tables met the CHECKs.
pub completion_is_kept :
    (m later : Moment) (cost attempt : ℕ) (input : CompleteModelOperationInput)
    (answer : ModelOperationCompletion) (cs : List ModelCall) (t t' : ModelTables)
    → MeetsModelChecks t
    → complete m cost input t ≡ (ok answer, t')
    → answer.retry_plan ≡ no_retry
    → claim later attempt input.operation_id (run_model_calls cs t')
      ≡ (ok (was_completed answer), run_model_calls cs t')
unfolding claim
completion_is_kept m later cost attempt input answer cs t t' checks h final =
    let (o, found, own, says) = complete-Answers m cost input answer t t' checks h final in
    let after = run_model_calls cs t' in
    let kept : select operation_id input.operation_id after.operations ≡ some o =
      subst (λ k. select operation_id k after.operations ≡ some o) own
        (closed_stays cs t' o
          (subst (λ k. select operation_id k t'.operations ≡ some o) (sym own) found)
          says.closed) in
    rw (kept, claim)
      (closed-claim later attempt o o.status answer after says.closed
        (Says-to_completion later answer o says final))
