-- ===== src/Model/Steps/Balances.antt =====
-- What a reservation adds to the budget accounts: packages/adapters/src/postgres/
-- model-operation-store.ts.
use xpens_go.Prelude.{
  ==_iff, ==_sym, Bool, Bool-cases, List, Option-cases, ap, arith, if◌then◌else◌, inl, inr, map,
  refl, subst, sym, true, ℕ, ◌&&◌, ◌+◌, ◌==◌, ◌||◌, ◌∙◌, ◌≡◌,
}
use xpens_go.Model.Registry.{ModelBudgetPolicyName}
use xpens_go.Model.Steps.Reservations.{
  KeepsAccount, account_scope_eq_iff, find_account-key, find_account-map, is_open_in,
  open_account-other, open_account-own, reserved_of, reserved_of-open_account,
}
use xpens_go.Model.Store.Budgets.{
  Reservation, account_scope_eq, add_reservation, engage_kill_switch, find_account, is_account,
  is_spent, open_account, opened_accounts, pays, reserved_accounts, update_account,
}
use xpens_go.Model.Store.Rows.{AccountScope, BudgetAccount, environment_account, user_account}
use mathlib.Core.Option

-- Whether a reservation is on an account.
abbrev pub is_reserved_on : AccountScope → ℕ → Reservation → Bool
is_reserved_on scope period r =
    (account_scope_eq (environment_account r.key) scope
      || account_scope_eq (user_account r.user) scope)
    && r.period == period

-- The accounts that pay are those of the two scopes in the month.
pub pays-is_account :
    (scope : AccountScope) (period user at_period : ℕ) (key : ModelBudgetPolicyName)
    (a : BudgetAccount)
    → is_account scope period a ≡ true
    → pays key user at_period a ≡ (
        (account_scope_eq (environment_account key) scope
          || account_scope_eq (user_account user) scope)
        && at_period == period)
pays-is_account scope period user at_period key a h =
    let same_scope : scope ≡ a.scope = account_scope_eq_iff scope a.scope (ground arith) in
    let same_period : a.period_start ≡ period = (==_iff a.period_start period).0 (ground arith) in
    rw (same_scope, sym same_period) (ground (arith, ==_sym at_period a.period_start))

opened-is_open_in :
    (scope : AccountScope) (period : ℕ) (r : Reservation) (as' : List BudgetAccount)
    → is_reserved_on scope period r ≡ true
    → is_open_in scope period (opened_accounts r as') ≡ true
opened-is_open_in scope period r as' h =
    let this_period : r.period ≡ period = (==_iff r.period period).0 (ground arith) in
    let first = open_account (environment_account r.key) r.period r.environment_ceiling as' in
    elim (Bool-cases (account_scope_eq (environment_account r.key) scope)) [
      | inl environment ↦
          let own = account_scope_eq_iff (environment_account r.key) scope environment in
          subst (λ p. is_open_in scope p (opened_accounts r as') ≡ true) this_period
            (subst (λ s. is_open_in s r.period (opened_accounts r as') ≡ true) own
              (open_account-other (environment_account r.key) (user_account r.user) r.period
                r.period r.user_ceiling first
                (open_account-own (environment_account r.key) r.period r.environment_ceiling as')))
      | inr other ↦
          let own = account_scope_eq_iff (user_account r.user) scope (ground arith) in
          subst (λ p. is_open_in scope p (opened_accounts r as') ≡ true) this_period
            (subst (λ s. is_open_in s r.period (opened_accounts r as') ≡ true) own
              (open_account-own (user_account r.user) r.period r.user_ceiling first))
    ]

pub update_account-KeepsAccount :
    (which : BudgetAccount → Bool) (f : BudgetAccount → BudgetAccount)
    → KeepsAccount f
    → KeepsAccount (update_account which f)
update_account-KeepsAccount which f keep a = elim (Bool-cases (which a)) [
  | inl chosen ↦ rw chosen (keep a)
  | inr other ↦ rw other (refl, refl)
]

engaged-reserved :
    (key : ModelBudgetPolicyName) (period : ℕ) (a : BudgetAccount)
    → (engage_kill_switch key period a).reserved_micro_usd ≡ a.reserved_micro_usd
engaged-reserved key period a =
    elim (Bool-cases (is_account (environment_account key) period a && is_spent a)) [
      | inl spent ↦ rw spent refl
      | inr room ↦ rw room refl
    ]

-- A reservation is added to each account that it is on.
pub reserve-reserved_of :
    (scope : AccountScope) (period : ℕ) (r : Reservation) (as' : List BudgetAccount)
    → reserved_of (
        find_account scope period
          (map (engage_kill_switch r.key r.period) (reserved_accounts r as')))
      ≡ (if is_reserved_on scope period r then r.amount else 0)
        + reserved_of (find_account scope period as')
reserve-reserved_of scope period r as' =
    let opened = opened_accounts r as' in
    let add = update_account (pays r.key r.user r.period) (add_reservation r.amount) in
    let same : reserved_of (find_account scope period opened)
        ≡ reserved_of (find_account scope period as') =
      reserved_of-open_account scope (user_account r.user) period r.period r.user_ceiling _
      ∙ reserved_of-open_account scope (environment_account r.key) period r.period
          r.environment_ceiling as' in
    let mapped =
      find_account-map scope period (engage_kill_switch r.key r.period) (map add opened)
        (update_account-KeepsAccount _ _ (λ a. (refl, refl)))
      ∙ ap (Option.map (engage_kill_switch r.key r.period)) (
          find_account-map scope period add opened
            (update_account-KeepsAccount _ _ (λ a. (refl, refl)))) in
    rw mapped (elim (Option-cases (find_account scope period opened)) [
      | inl absent ↦ elim (Bool-cases (is_reserved_on scope period r)) [
        | inl on_it ↦ absurd (ground (arith, opened-is_open_in scope period r as' on_it, absent))
        | inr off ↦ rw (absent, off) (ground (arith, same, absent))
      ]
      | inr (a, found) ↦
          let here = find_account-key scope period opened a found in
          let paid = pays-is_account scope period r.user r.period r.key a here in
          rw (found, engaged-reserved r.key r.period (add a)) (ground (arith, same, found, paid))
    ])
