-- ===== src/Model/StoreTests.antt =====
-- Runs of the model operation store on concrete tables: packages/adapters/src/postgres/
-- model-operation-store.ts.
use xpens_go.Prelude.{List, [], arith, count, false, none, refl, some, true, ℕ, ◌∷◌, ◌≡◌, ◌≤◌, ◌⊎◌}
use xpens_go.Effect.{ok}
use xpens_go.Model.Checks.{MeetsModelChecks}
use xpens_go.Model.Operation.{
  ModelGateway, ModelOperationStore, contains_invalid_extracted_date,
  execute_prepared_model_operation, run_claim, store_result, success,
}
use xpens_go.Model.Prepare.{PrepareInput, PrepareStoreInput, operation_duplicate, store_input}
use xpens_go.Model.Registry.{alpha, openai}
use xpens_go.Model.Steps.{
  ModelCall, claims_one, completes_one, model_call, prepares_one, restarts_one, run_model_calls,
}
use xpens_go.Model.Steps.Answers.{completion_is_kept}
use xpens_go.Model.Steps.Attempts.{attempts_within_maximum, is_attempt_of}
use xpens_go.Model.Steps.Books.{run_model_calls-Balances, store_input-PaysItsWay}
use xpens_go.Model.Steps.Ceilings.{IsWithinCeiling, prepared-IsWithinCeiling}
use xpens_go.Model.Steps.Consistent.{run_model_calls-MeetsModelChecks}
use xpens_go.Model.Steps.Final.{closed_stays}
use xpens_go.Model.Steps.Idempotence.{prepare_repeated}
use xpens_go.Model.Steps.Kept.{is_unresolved, unresolved_keeps_reservation}
use xpens_go.Model.Steps.Ledger.{PaysItsWay}
use xpens_go.Model.Steps.Reservations.{Balances}
use xpens_go.Model.Steps.Restarts.{RestartsWithin, restarts_of, run_model_calls-RestartsWithin}
use xpens_go.Model.Store.Budgets.{
  add_alert, alert_at, covers_release, find_account, open_account, record_alerts,
  refuses_reservation, release_reservation, reserve,
}
use xpens_go.Model.Store.Claim.{
  claim, close_operation, count_dispatch, dispatch, is_attempt_taken, start, start_paid,
  to_completion,
}
use xpens_go.Model.Store.Complete.{complete, schedule, settle}
use xpens_go.Model.Store.Prepare.{
  is_outcome_unknown, new_operation, prepare, restart, restart_operation,
}
use xpens_go.Model.Store.Rows.{
  ModelTables, Moment, OperationRow, environment_account, op_prepared, operation_id, user_account,
}
use xpens_go.Model.Types.{
  CompleteModelOperationInput, domain_validation_rejected, execution_succeeded, explicitly_rejected,
  gateway_failure, invalid_output, query_slots, rate_limited, scalar, schedule_transient_rate_limit,
  transient, was_completed,
}
use xpens_go.Table.{select}

abbrev at_time : ℕ → Moment
at_time now = record { now = now; today = 5; period = 1; clock = now }

abbrev paid_question : PrepareInput
paid_question = record {
  budget_policy = some alpha;
  canonical_input = 97 ∷ [];
  input_digest = 97 ∷ [];
  operation = query_slots;
  operation_id = 9;
  provider = openai;
  user_id = 3;
}

abbrev asked : PrepareStoreInput
asked = store_input paid_question

abbrev no_tables : ModelTables
no_tables = record { operations = []; attempts = []; accounts = []; alerts = []; counters = [] }

abbrev rate_limit_met : CompleteModelOperationInput
rate_limit_met = record {
  attempt_id = 21;
  completion = record {
    disposition = explicitly_rejected;
    observed_failure = gateway_failure (rate_limited transient 1500);
    retry_plan = schedule_transient_rate_limit 1500;
  };
  operation_id = 9;
  result = none;
}

abbrev answered : CompleteModelOperationInput
answered = record { attempt_id = 22; completion = success; operation_id = 9; result = some scalar }

-- An operation meets a rate limit, is tried again, and succeeds; a worker that comes too late is told so.
abbrev tried_twice : List ModelCall
tried_twice =
    prepares_one (at_time 1000) asked
    ∷ claims_one (at_time 1100) 21 9
    ∷ completes_one (at_time 1200) 0 rate_limit_met
    ∷ claims_one (at_time 3000) 22 9
    ∷ completes_one (at_time 3500) 300 answered
    ∷ claims_one (at_time 4000) 23 9
    ∷ []

-- The lease of an attempt ends, and the operation is restarted twice; the second restart is refused.
abbrev restarted_twice : List ModelCall
restarted_twice =
    prepares_one (at_time 1000) asked
    ∷ claims_one (at_time 1100) 21 9
    ∷ claims_one (at_time 90000) 22 9
    ∷ restarts_one (at_time 91000)
        (record { restarted_operation_id = 10; source_operation_id = 9; user_id = 3 })
    ∷ restarts_one (at_time 92000)
        (record { restarted_operation_id = 11; source_operation_id = 9; user_id = 3 })
    ∷ []

abbrev tables_after : List ModelCall → ModelTables
tables_after cs = run_model_calls cs no_tables

two-attempts : count (is_attempt_of 9) (tables_after tried_twice).attempts ≡ 2
unfolding run_model_calls model_call prepare reserve refuses_reservation find_account open_account
    record_alerts alert_at add_alert store_input claim dispatch start_paid start is_attempt_taken
    count_dispatch complete settle schedule release_reservation covers_release to_completion
two-attempts = refl

one-restart : restarts_of 9 (tables_after restarted_twice) ≡ 1
unfolding run_model_calls model_call prepare reserve refuses_reservation find_account open_account
    record_alerts alert_at add_alert store_input claim dispatch start_paid start is_attempt_taken
    count_dispatch complete settle schedule release_reservation covers_release to_completion restart
    restart_operation
one-restart = refl

no_checks : MeetsModelChecks no_tables
no_checks = record { unique = tt; rows = tt }

run_model_calls-MeetsModelChecks_example : MeetsModelChecks (run_model_calls tried_twice no_tables)
run_model_calls-MeetsModelChecks_example =
    run_model_calls-MeetsModelChecks tried_twice no_tables no_checks

free-provider : PaysItsWay asked
free-provider = store_input-PaysItsWay paid_question

run_model_calls-Balances_example :
    Balances (user_account 3) 1 (run_model_calls tried_twice no_tables)
unfolding find_account
run_model_calls-Balances_example =
    run_model_calls-Balances (user_account 3) 1 tried_twice no_tables
      (free-provider, (tt, (tt, (tt, (tt, (tt, tt)))))) no_checks refl

run_model_calls-RestartsWithin_example :
    RestartsWithin 9 1 (run_model_calls restarted_twice no_tables)
unfolding store_input
run_model_calls-RestartsWithin_example =
    run_model_calls-RestartsWithin 9 1 restarted_twice no_tables
      (omega arith, (tt, (tt, (tt, (tt, tt))))) (record { limits = tt; bounded = omega arith })

abbrev prepared_state : ModelTables
prepared_state = (prepare (at_time 1000) asked no_tables).1

prepared-IsWithinCeiling_example :
    IsWithinCeiling (environment_account alpha) 1 prepared_state
    × IsWithinCeiling (user_account 3) 1 prepared_state
unfolding prepare reserve refuses_reservation find_account open_account record_alerts alert_at
    add_alert store_input
prepared-IsWithinCeiling_example =
    prepared-IsWithinCeiling (at_time 1000) asked 9 no_tables prepared_state refl (omega arith)

abbrev closed_row : OperationRow
closed_row =
    record (close_operation 50 invalid_output domain_validation_rejected
      (new_operation (at_time 40) asked)) { reserved_cost_micro_usd = 0 }

abbrev one_closed : ModelTables
one_closed = record no_tables { operations = closed_row ∷ [] }

closed_stays_example :
    select operation_id 9 (run_model_calls tried_twice one_closed).operations ≡ some closed_row
unfolding store_input
closed_stays_example = closed_stays tried_twice one_closed closed_row refl refl

abbrev after_two : OperationRow
after_two = elim (select operation_id 9 (tables_after tried_twice).operations) [
  | none ↦ closed_row
  | some o ↦ o
]

attempts_within_maximum_example :
    (count (is_attempt_of 9) (tables_after tried_twice).attempts ≡ after_two.http_dispatch_count)
    × (count (is_attempt_of 9) (tables_after tried_twice).attempts
        ≤ after_two.maximum_http_dispatches)
unfolding run_model_calls model_call prepare reserve refuses_reservation find_account open_account
    record_alerts alert_at add_alert store_input claim dispatch start_paid start is_attempt_taken
    count_dispatch complete settle schedule release_reservation covers_release to_completion
attempts_within_maximum_example =
    attempts_within_maximum 9 tried_twice no_tables after_two no_checks refl refl

prepare_repeated_example :
    prepare (at_time 5000) asked (run_model_calls tried_twice prepared_state)
    ≡ (ok (operation_duplicate 9), run_model_calls tried_twice prepared_state)
unfolding prepare reserve refuses_reservation find_account open_account record_alerts alert_at
    add_alert store_input
prepare_repeated_example =
    prepare_repeated (at_time 1000) (at_time 5000) asked 9 tried_twice no_tables prepared_state refl

abbrev second_attempt : ModelTables
second_attempt =
    run_model_calls (prepares_one (at_time 1000) asked ∷ claims_one (at_time 1100) 22 9 ∷ [])
      no_tables

abbrev answered_state : ModelTables
answered_state = (complete (at_time 3500) 300 answered second_attempt).1

second_attempt-MeetsModelChecks : MeetsModelChecks second_attempt
second_attempt-MeetsModelChecks =
    run_model_calls-MeetsModelChecks
      (prepares_one (at_time 1000) asked ∷ claims_one (at_time 1100) 22 9 ∷ []) no_tables no_checks

completion_is_kept_example :
    claim (at_time 9000) 24 9 (run_model_calls tried_twice answered_state)
    ≡ (ok (was_completed success), run_model_calls tried_twice answered_state)
unfolding run_model_calls model_call prepare reserve refuses_reservation find_account open_account
    record_alerts alert_at add_alert store_input claim dispatch start_paid start is_attempt_taken
    count_dispatch complete settle schedule release_reservation covers_release to_completion
completion_is_kept_example =
    completion_is_kept (at_time 3500) (at_time 9000) 300 24 answered success tried_twice
      second_attempt answered_state second_attempt-MeetsModelChecks refl refl

-- Another worker finds the lease ended while the provider answers: the caller is told of a success,
-- and what is stored is that the outcome is unknown.
abbrev slow_gateway : ModelGateway ModelTables
slow_gateway = record { execute = λ attempt t. (ok scalar, (claim (at_time 90000) 25 9 t).1) }

abbrev worker_of_22 : ModelOperationStore ModelTables
worker_of_22 = record {
  claim = λ id. claim (at_time 1100) 22 id;
  complete = λ input. complete (at_time 90001) 300 input;
}

late_answer :
    ((execute_prepared_model_operation worker_of_22 slow_gateway (λ date. true) 9 prepared_state).0
      ≡ ok (execution_succeeded scalar))
    × (is_outcome_unknown
          (elim (select operation_id 9
            (execute_prepared_model_operation worker_of_22 slow_gateway
              (λ date. true)
              9
              prepared_state).1.operations) [ none ↦ op_prepared | some o ↦ o.status ])
        ≡ true)
unfolding execute_prepared_model_operation run_claim store_result contains_invalid_extracted_date
    prepare reserve refuses_reservation find_account open_account record_alerts alert_at add_alert
    store_input claim dispatch start_paid start is_attempt_taken count_dispatch complete settle
    schedule release_reservation covers_release to_completion
late_answer = (refl, refl)

-- The lease of an attempt ends.
abbrev lost_attempt : List ModelCall
lost_attempt = claims_one (at_time 1100) 21 9 ∷ claims_one (at_time 90000) 22 9 ∷ []

abbrev first_row : OperationRow
first_row = new_operation (at_time 1000) asked

unresolved_keeps_reservation_example :
    (o : OperationRow) × (select operation_id 9
        (run_model_calls lost_attempt prepared_state).operations
      ≡ some o)
    × ((is_unresolved o.status ≡ false)
        ⊎ (o.reserved_cost_micro_usd ≡ first_row.reserved_cost_micro_usd))
unfolding prepare reserve refuses_reservation find_account open_account record_alerts alert_at
    add_alert store_input
unresolved_keeps_reservation_example =
    unresolved_keeps_reservation lost_attempt prepared_state first_row refl

-- The first attempt met a rate limit, and the second one runs.
abbrev tried_once : ModelTables
tried_once =
    run_model_calls
      (claims_one (at_time 1100) 21 9 ∷ completes_one (at_time 1200) 0 rate_limit_met ∷ [])
      prepared_state

abbrev trying_again : ModelTables
trying_again = (claim (at_time 3000) 22 9 tried_once).1
