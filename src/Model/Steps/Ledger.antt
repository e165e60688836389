-- ===== src/Model/Steps/Ledger.antt =====
-- Every call keeps what is reserved equal to what its operations hold: packages/adapters/src/postgres/
-- model-operation-store.ts.
use xpens_go.Prelude.{
  Bool, Bool-cases, List, Option, Option-cases, [], ap, arith, false, if◌then◌else◌, inl, inr, ltb,
  map, none, refl, some, subst, sym, total, true, ℕ, ◌+◌, ◌∙◌, ◌∷◌, ◌≡◌, ◌≤◌, ◌⊎◌,
}
use xpens_go.Effect.{ok}
use xpens_go.Model.Prepare.{PrepareStoreInput, uses_provider_budget}
use xpens_go.Model.Steps.{IsOperation, prepared_tables, restarted_tables}
use xpens_go.Model.Steps.Balances.{
  pays-is_account, reserve-reserved_of, update_account-KeepsAccount,
}
use xpens_go.Model.Steps.Consistent.{reserve-ok}
use xpens_go.Model.Steps.Reservations.{
  Balances, find_account-key, find_account-map, holding, is_paid_from, reserved_of,
}
use xpens_go.Model.Store.Budgets.{
  covers_release, find_account, has_no_reservation, is_account, pays, release_reservation,
  settle_reservation, update_account,
}
use xpens_go.Model.Store.Prepare.{
  RestartInput, insert_operation, new_operation, prepare_reservation, restart_reservation,
  restarted_operation,
}
use xpens_go.Model.Store.Rows.{
  AccountScope, BudgetAccount, ModelTables, Moment, OperationRow, operation_id,
}
use xpens_go.Table.{HasUniqueKeys, update}
use xpens_go.Table.Counts.{total-update}

covers_release-found :
    (scope : AccountScope) (period amount : ℕ) (which : BudgetAccount → Bool)
    (as' : List BudgetAccount) (a : BudgetAccount)
    → covers_release which amount as' ≡ true
    → find_account scope period as' ≡ some a
    → which a ≡ true
    → amount ≤ a.reserved_micro_usd
unfolding covers_release find_account
covers_release-found scope period amount which [] a covered found chosen = cc
covers_release-found scope period amount which (x ∷ xs) a covered found chosen =
    elim (Bool-cases (is_account scope period x)) [
      | inl here ↦
          let same : x ≡ a = ground (arith, here, found) in
          let chosen_here : which x ≡ true = subst (λ y. which y ≡ true) (sym same) chosen in
          subst (λ y. amount ≤ y.reserved_micro_usd) same (ground (arith, covered, chosen_here))
      | inr there ↦
          covers_release-found scope period amount which xs a (ground (arith, covered))
            (ground (arith, there, found)) chosen
    ]

-- A release takes from each account what the operation holds on it, if the account was opened.
release-reserved_of :
    (scope : AccountScope) (period : ℕ) (o : OperationRow) (settlement : ℕ)
    (as' accounts : List BudgetAccount)
    → release_reservation o settlement as' ≡ some accounts
    → (reserved_of (find_account scope period accounts) + holding scope period o
        ≡ reserved_of (find_account scope period as'))
      ⊎ ((reserved_of (find_account scope period as') ≡ 0)
          × (reserved_of (find_account scope period accounts) ≡ 0))
unfolding release_reservation
release-reserved_of scope period o settlement as' accounts h =
    elim (Bool-cases (has_no_reservation o)) [
      | inl nothing ↦
          let same : as' ≡ accounts = ground (arith, h, nothing) in
          let held : holding scope period o ≡ 0 = ground (arith, nothing) in
          inl (rw (sym same, held) (omega arith))
      | inr something ↦
          let which = pays o.budget_environment_key o.user_id o.budget_period_start in
          let take = settle_reservation o.reserved_cost_micro_usd settlement in
          elim (Bool-cases (covers_release which o.reserved_cost_micro_usd as')) [
            | inr short ↦ absurd (ground (arith, h, something, short))
            | inl covered ↦
                let same : map (update_account which take) as' ≡ accounts =
                  ground (arith, h, something, covered) in
                let mapped =
                  find_account-map scope period (update_account which take) as'
                    (update_account-KeepsAccount which take (λ a. (refl, refl))) in
                rw (sym same, mapped)
                  (elim (Option-cases (find_account scope period as')) [
                    | inl absent ↦ rw absent (inr (refl, refl))
                    | inr (a, found) ↦
                        let here = find_account-key scope period as' a found in
                        let paid =
                          pays-is_account scope period o.user_id o.budget_period_start
                            o.budget_environment_key a here in
                        let enough =
                          covers_release-found scope period o.reserved_cost_micro_usd which as' a
                            covered found in
                        rw found (inl (ground (arith, paid, enough, something)))
                  ])
          ]
    ]

pub rewrite-Balances :
    (scope : AccountScope) (period : ℕ) (t t' : ModelTables) (o : OperationRow)
    (f : OperationRow → OperationRow)
    → t'.operations ≡ update operation_id o.id f t.operations
    → IsOperation t o
    → HasUniqueKeys operation_id t.operations
    → ((reserved_of (find_account scope period t'.accounts) + holding scope period o
          ≡ reserved_of (find_account scope period t.accounts) + holding scope period (f o))
        ⊎ ((reserved_of (find_account scope period t.accounts) ≡ 0)
            × ((reserved_of (find_account scope period t'.accounts) ≡ 0)
                × (holding scope period (f o) ≡ 0))))
    → Balances scope period t
    → Balances scope period t'
rewrite-Balances scope period t t' o f operations row unique moved h =
    let changed =
      total-update operation_id (holding scope period) o.id f t.operations o unique row in
    let after : total (holding scope period) t'.operations
        ≡ total (holding scope period) (update operation_id o.id f t.operations) =
      ap (total (holding scope period)) operations in
    elim moved [
      | inl by_difference ↦ omega (arith, changed, after, by_difference, h)
      | inr (closed, (still, nothing)) ↦ omega (arith, changed, after, closed, still, nothing, h)
    ]

pub released-Balances :
    (scope : AccountScope) (period : ℕ) (t t' : ModelTables) (o : OperationRow) (settlement : ℕ)
    (f : OperationRow → OperationRow)
    → t'.operations ≡ update operation_id o.id f t.operations
    → IsOperation t o
    → HasUniqueKeys operation_id t.operations
    → (f o).reserved_cost_micro_usd ≡ 0
    → release_reservation o settlement t.accounts ≡ some t'.accounts
    → Balances scope period t
    → Balances scope period t'
released-Balances scope period t t' o settlement f operations row unique emptied released h =
    let nothing : holding scope period (f o) ≡ 0 = ground (arith, emptied) in
    rewrite-Balances scope period t t' o f operations row unique
      (elim (release-reserved_of scope period o settlement t.accounts t'.accounts released) [
        | inl less ↦ inl (omega (arith, less, nothing))
        | inr (before, after) ↦ inr (before, (after, nothing))
      ])
      h

-- A change that leaves the accounts and what the operation holds alone.
pub kept-Balances :
    (scope : AccountScope) (period : ℕ) (t t' : ModelTables) (o : OperationRow)
    (f : OperationRow → OperationRow)
    → t'.operations ≡ update operation_id o.id f t.operations
    → IsOperation t o
    → HasUniqueKeys operation_id t.operations
    → t'.accounts ≡ t.accounts
    → holding scope period (f o) ≡ holding scope period o
    → Balances scope period t
    → Balances scope period t'
kept-Balances scope period t t' o f operations row unique accounts same h =
    rewrite-Balances scope period t t' o f operations row unique (inl (rw (accounts, same) refl)) h

-- A free provider has nothing reserved, as `prepareModelOperation` asks for it.
abbrev pub PaysItsWay : PrepareStoreInput → Type 0
PaysItsWay input = uses_provider_budget input.provider ≡ false → input.reserved_cost_micro_usd ≡ 0

abbrev pub AllPay : Option PrepareStoreInput → Type 0
AllPay none = Unit
AllPay (some input) = PaysItsWay input

pub inserted-Balances :
    (scope : AccountScope) (period : ℕ) (m : Moment) (input : PrepareStoreInput)
    (t t₁ : ModelTables)
    → PaysItsWay input
    → prepared_tables m input t ≡ ok t₁
    → Balances scope period t
    → Balances scope period (insert_operation (new_operation m input) t₁)
inserted-Balances scope period m input t t₁ pays_way made h =
    elim (Bool-cases (ltb 0 input.reserved_cost_micro_usd)) [
      | inl paid ↦
          let (allowed, operations, attempts, accounts) =
            reserve-ok (prepare_reservation m input) t t₁ (ground (arith, made, paid)) in
          let charged : uses_provider_budget input.provider ≡ true =
            elim (Bool-cases (uses_provider_budget input.provider)) [
              | inl yes_it_is ↦ yes_it_is
              | inr free ↦ absurd (ground (arith, pays_way free, paid))
            ] in
          rw (accounts, operations, charged)
            (reserve-reserved_of scope period (prepare_reservation m input) t.accounts
              ∙ ap
                  (λ x.
                    (if is_paid_from scope period (new_operation m input)
                      then input.reserved_cost_micro_usd
                      else 0)
                    + x)
                  h)
      | inr free ↦
          let same : t ≡ t₁ = ground (arith, made, free) in
          let nothing : input.reserved_cost_micro_usd ≡ 0 = ground (arith, free) in
          subst (λ x. Balances scope period (insert_operation (new_operation m input) x)) same
            (ground (arith, nothing, h))
    ]

pub copied-Balances :
    (scope : AccountScope) (period : ℕ) (m : Moment) (input : RestartInput) (source : OperationRow)
    (t t₁ : ModelTables)
    → restarted_tables m source t ≡ ok t₁
    → Balances scope period t
    → Balances scope period (insert_operation (restarted_operation m input source) t₁)
copied-Balances scope period m input source t t₁ made h =
    elim (Bool-cases (has_no_reservation source)) [
      | inr paid ↦
          let (allowed, operations, attempts, accounts) =
            reserve-ok (restart_reservation m source) t t₁ (ground (arith, made, paid)) in
          let charged : uses_provider_budget source.provider ≡ true = ground (arith, paid) in
          rw (accounts, operations, charged)
            (reserve-reserved_of scope period (restart_reservation m source) t.accounts
              ∙ ap
                  (λ x.
                    (if is_paid_from scope period (restarted_operation m input source)
                      then source.reserved_cost_micro_usd
                      else 0)
                    + x)
                  h)
      | inl free ↦
          let same : t ≡ t₁ = ground (arith, made, free) in
          let nothing : holding scope period (restarted_operation m input source) ≡ 0 =
            ground (arith, free) in
          subst
            (λ x. Balances scope period (insert_operation (restarted_operation m input source) x))
            same (omega (arith, nothing, h))
    ]
