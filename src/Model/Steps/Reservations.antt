-- ===== src/Model/Steps/Reservations.antt =====
-- What is reserved on the budget accounts: packages/adapters/src/postgres/model-operation-store.ts.
use xpens_go.Prelude.{
  ==_iff, ==_refl, Bool, Bool-cases, List, Option, [], ap, arith, if◌then◌else◌, inl, inr, is_none,
  map, none, not, refl, some, subst, total, true, ℕ, ◌&&◌, ◌==◌, ◌||◌, ◌∷◌, ◌≡◌,
}
use xpens_go.Model.Prepare.{uses_provider_budget}
use xpens_go.Model.Registry.{ModelBudgetPolicyName, alpha, development_staging}
use xpens_go.Model.Store.Budgets.{
  account_scope_eq, find_account, is_account, open_account, policy_eq,
}
use xpens_go.Model.Store.Rows.{
  AccountScope, BudgetAccount, ModelTables, OperationRow, environment_account, user_account,
}
use mathlib.Core.Option

-- Whether an operation is paid from an account.
abbrev pub is_paid_from : AccountScope → ℕ → OperationRow → Bool
is_paid_from scope period o =
    (account_scope_eq (environment_account o.budget_environment_key) scope
      || account_scope_eq (user_account o.user_id) scope)
    && o.budget_period_start == period

-- What an operation has reserved on an account.
abbrev pub holding : AccountScope → ℕ → OperationRow → ℕ
holding scope period o =
    if is_paid_from scope period o
    then (if uses_provider_budget o.provider then o.reserved_cost_micro_usd else 0)
    else 0

-- What is reserved on an account; nothing if it was never opened.
abbrev pub reserved_of : Option BudgetAccount → ℕ
reserved_of none = 0
reserved_of (some a) = a.reserved_micro_usd

-- What is reserved on each account is the sum of what its operations have reserved.
abbrev pub Balances : AccountScope → ℕ → ModelTables → Type 0
Balances scope period t =
    reserved_of (find_account scope period t.accounts) ≡ total (holding scope period) t.operations

policy_eq_iff : (a b : ModelBudgetPolicyName) → policy_eq a b ≡ true → a ≡ b
policy_eq_iff alpha alpha h = refl
policy_eq_iff development_staging development_staging h = refl
policy_eq_iff alpha development_staging h = cc
policy_eq_iff development_staging alpha h = cc

pub account_scope_eq_iff : (a b : AccountScope) → account_scope_eq a b ≡ true → a ≡ b
account_scope_eq_iff (environment_account a) (environment_account b) h =
    ap environment_account (policy_eq_iff a b h)
account_scope_eq_iff (user_account a) (user_account b) h = ap user_account ((==_iff a b).0 h)
account_scope_eq_iff (environment_account a) (user_account b) h = cc
account_scope_eq_iff (user_account a) (environment_account b) h = cc

account_scope_eq_refl : (a : AccountScope) → account_scope_eq a a ≡ true
account_scope_eq_refl (environment_account alpha) = refl
account_scope_eq_refl (environment_account development_staging) = refl
account_scope_eq_refl (user_account a) = ==_refl a

-- An update of accounts that keeps their keys.
abbrev pub KeepsAccount : (BudgetAccount → BudgetAccount) → Type 0
KeepsAccount g =
    (a : BudgetAccount) → ((g a).scope ≡ a.scope) × ((g a).period_start ≡ a.period_start)

pub find_account-map :
    (scope : AccountScope) (period : ℕ) (g : BudgetAccount → BudgetAccount)
    (as' : List BudgetAccount)
    → KeepsAccount g
    → find_account scope period (map g as') ≡ Option.map g (find_account scope period as')
unfolding find_account
find_account-map scope period g [] keep = refl
find_account-map scope period g (a ∷ as') keep =
    let (scope_kept, period_kept) = keep a in
    ground (arith, scope_kept, period_kept, find_account-map scope period g as' keep)

-- An account that is found is the one that was asked for.
pub find_account-key :
    (scope : AccountScope) (period : ℕ) (as' : List BudgetAccount) (a : BudgetAccount)
    → find_account scope period as' ≡ some a
    → is_account scope period a ≡ true
unfolding find_account
find_account-key scope period [] a h = cc
find_account-key scope period (x ∷ xs) a h = elim (Bool-cases (is_account scope period x)) [
  | inl here ↦
      let same : x ≡ a = ground (arith, here, h) in
      subst (λ y. is_account scope period y ≡ true) same here
  | inr there ↦ find_account-key scope period xs a (ground (arith, there, h))
]

-- Opening an account reserves nothing.
pub reserved_of-open_account :
    (scope other : AccountScope) (period at_period ceiling : ℕ) (as' : List BudgetAccount)
    → reserved_of (find_account scope period (open_account other at_period ceiling as'))
      ≡ reserved_of (find_account scope period as')
unfolding find_account open_account
reserved_of-open_account scope other period at_period ceiling [] = ground arith
reserved_of-open_account scope other period at_period ceiling (a ∷ as') =
    ground (arith, reserved_of-open_account scope other period at_period ceiling as')

abbrev pub is_open_in : AccountScope → ℕ → List BudgetAccount → Bool
is_open_in scope period as' = not (is_none (find_account scope period as'))

-- An account that is opened is there, and stays there when another is opened.
pub open_account-own :
    (scope : AccountScope) (period ceiling : ℕ) (as' : List BudgetAccount)
    → is_open_in scope period (open_account scope period ceiling as') ≡ true
unfolding find_account open_account
open_account-own scope period ceiling [] =
    ground (arith, account_scope_eq_refl scope, ==_refl period)
open_account-own scope period ceiling (a ∷ as') =
    ground (arith, open_account-own scope period ceiling as')

pub open_account-other :
    (scope other : AccountScope) (period at_period ceiling : ℕ) (as' : List BudgetAccount)
    → is_open_in scope period as' ≡ true
    → is_open_in scope period (open_account other at_period ceiling as') ≡ true
unfolding find_account open_account
open_account-other scope other period at_period ceiling [] h = cc
open_account-other scope other period at_period ceiling (a ∷ as') h =
    ground (arith, open_account-other scope other period at_period ceiling as')
