-- ===== src/Model/Store/Budgets.antt =====
-- The budget accounts: packages/adapters/src/postgres/model-operation-store.ts.
use xpens_go.Prelude.{
  Bool, List, Option, [], false, if◌then◌else◌, leb, ltb, map, none, not, some, true, ℕ, ◌&&◌, ◌*◌,
  ◌+◌, ◌-◌, ◌==◌, ◌||◌, ◌∷◌,
}
use xpens_go.Effect.{Result, err, ok}
use xpens_go.Model.Prepare.{
  BudgetScope, PrepareError, environment_month, prepare_budget_exceeded, prepare_kill_switch,
  user_month, uses_provider_budget,
}
use xpens_go.Model.Registry.{ModelBudgetPolicyName, alpha, development_staging}
use xpens_go.Model.Store.Rows.{
  AccountScope, BudgetAccount, BudgetAlert, ModelTables, OperationRow, environment_account,
  user_account,
}

abbrev pub policy_eq : ModelBudgetPolicyName → ModelBudgetPolicyName → Bool
policy_eq alpha alpha = true
policy_eq development_staging development_staging = true
policy_eq _ _ = false

abbrev pub account_scope_eq : AccountScope → AccountScope → Bool
account_scope_eq (environment_account a) (environment_account b) = policy_eq a b
account_scope_eq (user_account a) (user_account b) = a == b
account_scope_eq _ _ = false

abbrev pub is_account : AccountScope → ℕ → BudgetAccount → Bool
is_account scope period a = account_scope_eq scope a.scope && a.period_start == period

unfoldable pub find_account : AccountScope → ℕ → List BudgetAccount → Option BudgetAccount
find_account scope period [] = none
find_account scope period (a ∷ as') =
    let rest = find_account scope period as' in if is_account scope period a then some a else rest

-- INSERT … ON CONFLICT DO NOTHING
unfoldable pub open_account : AccountScope → ℕ → ℕ → List BudgetAccount → List BudgetAccount
open_account scope period ceiling [] =
    record {
      scope = scope;
      period_start = period;
      ceiling_micro_usd = ceiling;
      reserved_micro_usd = 0;
      settled_micro_usd = 0;
      kill_switch = false;
    }
    ∷ []
open_account scope period ceiling (a ∷ as') =
    let rest = open_account scope period ceiling as' in
    if is_account scope period a then a ∷ as' else a ∷ rest

-- The accounts that an operation is paid from.
abbrev pub pays : ModelBudgetPolicyName → ℕ → ℕ → BudgetAccount → Bool
pays key user period a =
    is_account (environment_account key) period a || is_account (user_account user) period a

abbrev pub update_account :
    (BudgetAccount → Bool) → (BudgetAccount → BudgetAccount) → BudgetAccount → BudgetAccount
update_account which f a = if which a then f a else a

abbrev pub add_reservation : ℕ → BudgetAccount → BudgetAccount
add_reservation amount a = record a { reserved_micro_usd = a.reserved_micro_usd + amount }

abbrev pub settle_reservation : ℕ → ℕ → BudgetAccount → BudgetAccount
settle_reservation amount settlement a = record a {
  reserved_micro_usd = a.reserved_micro_usd - amount;
  settled_micro_usd = a.settled_micro_usd + settlement;
}

abbrev pub is_spent : BudgetAccount → Bool
is_spent a =
    ltb 0 a.ceiling_micro_usd
    && leb a.ceiling_micro_usd (a.reserved_micro_usd + a.settled_micro_usd)

-- The second statement of `recordBudgetThresholds`.
abbrev pub engage_kill_switch : ModelBudgetPolicyName → ℕ → BudgetAccount → BudgetAccount
engage_kill_switch key period =
    update_account (λ a. is_account (environment_account key) period a && is_spent a)
      (λ a. record a { kill_switch = true })

abbrev pub crosses : ℕ → BudgetAccount → Bool
crosses percent a =
    ltb 0 a.ceiling_micro_usd
    && leb (a.ceiling_micro_usd * percent) ((a.reserved_micro_usd + a.settled_micro_usd) * 100)

abbrev pub is_alert : BudgetAlert → BudgetAlert → Bool
is_alert x y =
    account_scope_eq x.scope y.scope
    && x.period_start == y.period_start
    && x.threshold_percent == y.threshold_percent

unfoldable pub add_alert : BudgetAlert → List BudgetAlert → List BudgetAlert
add_alert x [] = x ∷ []
add_alert x (y ∷ ys) = let rest = add_alert x ys in if is_alert x y then y ∷ ys else y ∷ rest

unfoldable pub alert_at : ℕ → BudgetAccount → List BudgetAlert → List BudgetAlert
alert_at percent a alerts =
    if crosses percent a
    then add_alert
        (record { scope = a.scope; period_start = a.period_start; threshold_percent = percent })
        alerts
    else alerts

-- The first statement of `recordBudgetThresholds`.
unfoldable pub record_alerts :
    (BudgetAccount → Bool) → List BudgetAccount → List BudgetAlert → List BudgetAlert
record_alerts which [] alerts = alerts
record_alerts which (a ∷ as') alerts =
    let rest = record_alerts which as' alerts in
    if which a then alert_at 50 a (alert_at 80 a (alert_at 90 a (alert_at 100 a rest))) else rest

abbrev pub exceeds : ℕ → BudgetAccount → Bool
exceeds amount a = ltb a.ceiling_micro_usd (a.reserved_micro_usd + a.settled_micro_usd + amount)

-- What a reservation is for: the two accounts, their ceilings if they are opened, and the amount.
pub record Reservation : Type 0 where
  pub key : ModelBudgetPolicyName
  pub user : ℕ
  pub period : ℕ
  pub environment_ceiling : ℕ
  pub user_ceiling : ℕ
  pub amount : ℕ

abbrev pub opened_accounts : Reservation → List BudgetAccount → List BudgetAccount
opened_accounts r as' =
    open_account (user_account r.user) r.period r.user_ceiling
      (open_account (environment_account r.key) r.period r.environment_ceiling as')

abbrev pub refuses_account : BudgetScope → ℕ → Option BudgetAccount → Option PrepareError
refuses_account scope amount none = some (prepare_budget_exceeded scope)
refuses_account scope amount (some a) =
    if exceeds amount a then some (prepare_budget_exceeded scope) else none

abbrev pub is_killed : Option BudgetAccount → Bool
is_killed none = false
is_killed (some a) = a.kill_switch

-- Why the opened accounts refuse a reservation: the kill switch, the environment, then the user.
unfoldable pub refuses_reservation : Reservation → List BudgetAccount → Option PrepareError
refuses_reservation r as' =
    let environment = find_account (environment_account r.key) r.period as' in
    if is_killed environment
    then some (prepare_kill_switch r.key)
    else elim (refuses_account environment_month r.amount environment) [
      | some e ↦ some e
      | none ↦ refuses_account user_month r.amount (find_account (user_account r.user) r.period as')
    ]

abbrev pub reserved_accounts : Reservation → List BudgetAccount → List BudgetAccount
reserved_accounts r as' =
    map (update_account (pays r.key r.user r.period) (add_reservation r.amount))
      (opened_accounts r as')

-- The accounts and the alerts once the reservation is made.
unfoldable pub reserve : Reservation → ModelTables → Result PrepareError ModelTables
reserve r t = elim (refuses_reservation r (opened_accounts r t.accounts)) [
  | some e ↦ err e
  | none ↦ ok (record t {
    accounts = map (engage_kill_switch r.key r.period) (reserved_accounts r t.accounts);
    alerts = record_alerts (pays r.key r.user r.period) (reserved_accounts r t.accounts) t.alerts;
  })
]

-- CHECK (reserved_micro_usd >= 0), of the accounts that a release subtracts from.
unfoldable pub covers_release : (BudgetAccount → Bool) → ℕ → List BudgetAccount → Bool
covers_release which amount [] = true
covers_release which amount (a ∷ as') =
    (not (which a) || leb amount a.reserved_micro_usd) && covers_release which amount as'

abbrev pub has_no_reservation : OperationRow → Bool
has_no_reservation o = not (uses_provider_budget o.provider) || o.reserved_cost_micro_usd == 0

-- `releaseReservation`; nothing if the CHECK makes it fail.
unfoldable pub release_reservation :
    OperationRow → ℕ → List BudgetAccount → Option (List BudgetAccount)
release_reservation o settlement as' =
    if has_no_reservation o
    then some as'
    else (let which = pays o.budget_environment_key o.user_id o.budget_period_start in
        if covers_release which o.reserved_cost_micro_usd as'
        then some (
            map (update_account which (settle_reservation o.reserved_cost_micro_usd settlement))
              as')
        else none)
