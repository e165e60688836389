-- ===== src/Model/Store/Claim.antt =====
-- `claim` of packages/adapters/src/postgres/model-operation-store.ts. `attempt` is what
-- gen_random_uuid() draws; an identifier or an ordinal that is taken makes the INSERT fail.
use xpens_go.Prelude.{
  Bool, List, Option, [], false, if◌then◌else◌, is_none, leb, ltb, max, none, some, ℕ, ◌&&◌, ◌+◌,
  ◌-◌, ◌==◌, ◌||◌, ◌∷◌,
}
use xpens_go.Effect.{Effect, Result, err, ok}
use xpens_go.Model.Prepare.{uses_provider_budget}
use xpens_go.Model.Store.Budgets.{find_account, release_reservation}
use xpens_go.Model.Store.Rows.{
  AttemptRow, BudgetAccount, DispatchCounter, ModelTables, Moment, OperationRow, OperationStatus,
  RetryPlanName, attempt_id_of, environment_account, op_closed, op_dispatched, op_prepared,
  op_retry_scheduled, operation_id, plan_none, plan_transient_429,
}
use xpens_go.Model.Types.{
  ClaimModelOperationOutcome, ClaimedModelAttempt, ModelAttemptId, ModelCompletionDisposition,
  ModelOperationCompletion, ModelOperationError, ModelOperationId, ModelRetryPlan, ObservedFailure,
  attempt_claimed, attempt_lease_expired, daily_dispatch_limit_exceeded,
  deadline_exceeded_before_dispatch, dispatch_limit_exceeded, explicitly_rejected,
  kill_switch_engaged, model_persistence_unavailable, no_retry, nothing_observed,
  operation_not_found, outcome_unknown, schedule_transient_rate_limit, was_completed, was_deferred,
  was_rejected,
}
use xpens_go.Table.{select, update}

-- A completion that does not plan a retry.
abbrev pub final_completion :
    ModelCompletionDisposition → ObservedFailure → ModelOperationCompletion
final_completion d failure = record {
  disposition = d;
  observed_failure = failure;
  retry_plan = no_retry;
}

-- `toRetryPlan` and `toCompletion`. The CHECKs give a terminal operation a disposition; without one
-- the source throws.
abbrev pub stored_plan : ℕ → RetryPlanName → Option ℕ → ModelRetryPlan
stored_plan clock plan_none not_before = no_retry
stored_plan clock plan_transient_429 none = schedule_transient_rate_limit 0
stored_plan clock plan_transient_429 (some until) = schedule_transient_rate_limit (until - clock)

unfoldable pub to_completion : Moment → OperationRow → Option ModelOperationCompletion
to_completion m o = elim o.completion_disposition [
  | none ↦ none
  | some d ↦ some (record {
    disposition = d;
    observed_failure = o.observed_failure;
    retry_plan = stored_plan m.clock o.retry_plan o.retry_not_before;
  })
]

abbrev pub close_operation :
    ℕ → ModelCompletionDisposition → ObservedFailure → OperationRow → OperationRow
close_operation now d failure o = record o {
  status = op_closed d;
  completion_disposition = some d;
  observed_failure = failure;
  retry_plan = plan_none;
  retry_not_before = none;
  current_attempt_id = none;
  current_lease_until = none;
  completed_at = some now;
}

abbrev pub reject_operation : ℕ → ObservedFailure → OperationRow → OperationRow
reject_operation now failure o = record (close_operation now explicitly_rejected failure o) {
  reserved_cost_micro_usd = 0;
}

-- The kill switch and the daily limit are looked at where no attempt is under way, and the two
-- updates leave the attempt's columns alone.
abbrev pub reject_undispatched : ℕ → ObservedFailure → OperationRow → OperationRow
reject_undispatched now failure o = record (reject_operation now failure o) {
  current_attempt_id = o.current_attempt_id;
  current_lease_until = o.current_lease_until;
}

abbrev pub is_open : AttemptRow → Bool
is_open a = is_none a.completion_disposition

abbrev pub lapse_attempt : ℕ → AttemptRow → AttemptRow
lapse_attempt now a =
    if is_open a
    then record a {
      completion_disposition = some outcome_unknown;
      observed_failure = attempt_lease_expired;
      retry_plan = plan_none;
      completed_at = some now;
    }
    else a

-- The lease has ended: nobody knows what the provider did, and the reservation is kept.
abbrev pub expire : ℕ → ModelAttemptId → OperationRow → ModelTables → ModelTables
expire now attempt o t = record t {
  attempts = update attempt_id_of attempt (lapse_attempt now) t.attempts;
  operations =
      update operation_id o.id (close_operation now outcome_unknown attempt_lease_expired)
        t.operations;
}

-- An operation is closed once its reservation is released.
abbrev pub rejected_with :
    (OperationRow → OperationRow)
    → ObservedFailure
    → OperationRow
    → ModelTables
    → Option (List BudgetAccount)
    → Result ModelOperationError ClaimModelOperationOutcome × ModelTables
rejected_with f failure o t none = (err model_persistence_unavailable, t)
rejected_with f failure o t (some accounts) = (
  ok (was_rejected (final_completion explicitly_rejected failure)),
  record t { accounts = accounts; operations = update operation_id o.id f t.operations },
)

abbrev pub start_attempt : ℕ → ModelAttemptId → OperationRow → OperationRow
start_attempt now attempt o = record o {
  status = op_dispatched;
  completion_disposition = none;
  observed_failure = nothing_observed;
  retry_plan = plan_none;
  retry_not_before = none;
  current_attempt_id = some attempt;
  current_lease_until = some (now + 30000);
  http_dispatch_count = o.http_dispatch_count + 1;
}

abbrev pub new_attempt_row : ℕ → ModelAttemptId → OperationRow → AttemptRow
new_attempt_row now attempt o = record {
  id = attempt;
  operation_id = o.id;
  attempt_ordinal = o.http_dispatch_count + 1;
  leased_until = now + 30000;
  completion_disposition = none;
  observed_failure = nothing_observed;
  retry_plan = plan_none;
  cost_micro_usd = none;
  completed_at = none;
}

-- The primary key of `model_attempts`, and its UNIQUE (operation_id, attempt_ordinal).
unfoldable pub is_attempt_taken : ModelAttemptId → ModelOperationId → ℕ → List AttemptRow → Bool
is_attempt_taken attempt operation ordinal [] = false
is_attempt_taken attempt operation ordinal (a ∷ as') =
    (a.id == attempt || (a.operation_id == operation && a.attempt_ordinal == ordinal))
    || is_attempt_taken attempt operation ordinal as'

abbrev pub claimed_attempt : ModelAttemptId → OperationRow → ClaimedModelAttempt
claimed_attempt attempt o = record {
  attempt_id = attempt;
  attempt_ordinal = o.http_dispatch_count + 1;
  operation = o.operation;
  operation_id = o.id;
  transient_rate_limit_retry_available =
      ltb o.transient_rate_limit_retries_used o.transient_rate_limit_retry_limit;
}

abbrev pub dispatched : ℕ → ModelAttemptId → OperationRow → ModelTables → ModelTables
dispatched now attempt o t = record t {
  attempts = new_attempt_row now attempt o ∷ t.attempts;
  operations = update operation_id o.id (start_attempt now attempt) t.operations;
}

unfoldable pub start :
    Moment
    → ModelAttemptId
    → OperationRow
    → List DispatchCounter
    → Effect ModelTables ModelOperationError ClaimModelOperationOutcome
start m attempt o counters t =
    if is_attempt_taken attempt o.id (o.http_dispatch_count + 1) t.attempts
    then (err model_persistence_unavailable, t)
    else (
      ok (attempt_claimed (claimed_attempt attempt o)),
      record (dispatched m.now attempt o t) { counters = counters },
    )

abbrev pub is_counter : ℕ → ℕ → DispatchCounter → Bool
is_counter user date c = c.user_id == user && c.dispatch_date == date

abbrev pub keep_counter :
    DispatchCounter → Option (List DispatchCounter) → Option (List DispatchCounter)
keep_counter c none = none
keep_counter c (some cs) = some (c ∷ cs)

-- INSERT … ON CONFLICT DO UPDATE … WHERE dispatch_count < limit: nothing at the limit.
unfoldable pub count_dispatch : ℕ → ℕ → ℕ → List DispatchCounter → Option (List DispatchCounter)
count_dispatch user date limit [] =
    some (record { user_id = user; dispatch_date = date; dispatch_count = 1 } ∷ [])
count_dispatch user date limit (c ∷ cs) =
    let rest = count_dispatch user date limit cs in
    if is_counter user date c
    then (if ltb c.dispatch_count limit
        then some (record c { dispatch_count = c.dispatch_count + 1 } ∷ cs)
        else none)
    else keep_counter c rest

-- A dispatch to the provider: the kill switch of its budget, then the user's limit of the day.
unfoldable pub start_paid :
    Moment
    → ModelAttemptId
    → OperationRow
    → Effect ModelTables ModelOperationError ClaimModelOperationOutcome
start_paid m attempt o t =
    elim (find_account (environment_account o.budget_environment_key) o.budget_period_start
      t.accounts) [
        | none ↦ (err model_persistence_unavailable, t)
        | some control ↦
            if control.kill_switch
            then rejected_with (reject_undispatched m.now kill_switch_engaged) kill_switch_engaged o
                t (release_reservation o 0 t.accounts)
            else elim (count_dispatch o.user_id m.today o.daily_dispatch_limit t.counters) [
              | none ↦
                  rejected_with (reject_undispatched m.now daily_dispatch_limit_exceeded)
                    daily_dispatch_limit_exceeded o t (release_reservation o 0 t.accounts)
              | some counters ↦ start m attempt o counters t
            ]
      ]

-- An operation that nobody works on and that is not put off.
unfoldable pub dispatch :
    Moment
    → ModelAttemptId
    → OperationRow
    → Effect ModelTables ModelOperationError ClaimModelOperationOutcome
dispatch m attempt o t =
    if leb o.deadline_at m.now
    then rejected_with (reject_operation m.now deadline_exceeded_before_dispatch)
        deadline_exceeded_before_dispatch o t (release_reservation o 0 t.accounts)
    else if leb o.maximum_http_dispatches o.http_dispatch_count
    then rejected_with (reject_operation m.now dispatch_limit_exceeded) dispatch_limit_exceeded o t
        (release_reservation o 0 t.accounts)
    else if uses_provider_budget o.provider
    then start_paid m attempt o t
    else start m attempt o t.counters t

abbrev pub was_completed_as :
    Option ModelOperationCompletion
    → Effect ModelTables ModelOperationError ClaimModelOperationOutcome
was_completed_as none t = (err model_persistence_unavailable, t)
was_completed_as (some completion) t = (ok (was_completed completion), t)

abbrev pub claim_dispatched :
    Moment
    → OperationRow
    → Option ModelAttemptId
    → Option ℕ
    → Effect ModelTables ModelOperationError ClaimModelOperationOutcome
claim_dispatched m o none lease t = (err model_persistence_unavailable, t)
claim_dispatched m o (some current) none t = (err model_persistence_unavailable, t)
claim_dispatched m o (some current) (some lease) t =
    if ltb m.now lease then (ok (was_deferred (max 1 (lease - m.now))), t) else (
      ok (was_completed (final_completion outcome_unknown attempt_lease_expired)),
      expire m.now current o t,
    )

abbrev pub claim_scheduled :
    Moment
    → ModelAttemptId
    → OperationRow
    → Option ℕ
    → Effect ModelTables ModelOperationError ClaimModelOperationOutcome
claim_scheduled m attempt o none t = dispatch m attempt o t
claim_scheduled m attempt o (some until) t =
    if ltb m.now until
    then (ok (was_deferred (max 1 (until - m.now))), t)
    else dispatch m attempt o t

abbrev pub claim_operation :
    Moment
    → ModelAttemptId
    → OperationRow
    → OperationStatus
    → Effect ModelTables ModelOperationError ClaimModelOperationOutcome
claim_operation m attempt o (op_closed d) t = was_completed_as (to_completion m o) t
claim_operation m attempt o op_dispatched t =
    claim_dispatched m o o.current_attempt_id o.current_lease_until t
claim_operation m attempt o op_retry_scheduled t = claim_scheduled m attempt o o.retry_not_before t
claim_operation m attempt o op_prepared t = dispatch m attempt o t

unfoldable pub claim :
    Moment
    → ModelAttemptId
    → ModelOperationId
    → Effect ModelTables ModelOperationError ClaimModelOperationOutcome
claim m attempt id t = elim (select operation_id id t.operations) [
  | none ↦ (err operation_not_found, t)
  | some o ↦ claim_operation m attempt o o.status t
]
