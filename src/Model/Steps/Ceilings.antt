-- ===== src/Model/Steps/Ceilings.antt =====
-- What a reservation that is made says of the budgets: packages/adapters/src/postgres/
-- model-operation-store.ts.
use xpens_go.Prelude.{
  Bool-cases, Option, Option-cases, ap, arith, inl, inr, map, none, refl, some, ℕ, ◌&&◌, ◌+◌, ◌∙◌,
  ◌≡◌, ◌≤◌,
}
use xpens_go.Effect.{ok}
use xpens_go.Model.Prepare.{
  BudgetScope, PrepareStoreInput, environment_month, operation_prepared, user_month,
}
use xpens_go.Model.Steps.Balances.{update_account-KeepsAccount}
use xpens_go.Model.Steps.Consistent.{reserve-ok}
use xpens_go.Model.Steps.Refinement.{Result-cases}
use xpens_go.Model.Steps.Reservations.{find_account-map}
use xpens_go.Model.Store.Budgets.{
  Reservation, add_reservation, engage_kill_switch, find_account, is_account, is_killed, is_spent,
  opened_accounts, pays, refuses_account, refuses_reservation, reserve, reserved_accounts,
  update_account,
}
use xpens_go.Model.Store.Prepare.{
  insert_operation, new_operation, prepare, prepare_reservation, same_digest,
}
use xpens_go.Model.Store.Rows.{
  AccountScope, BudgetAccount, ModelTables, Moment, environment_account, operation_id, user_account,
}
use xpens_go.Table.{select}
use mathlib.Core.Option

-- The account exists and is within its ceiling.
abbrev pub IsWithinCeiling : AccountScope → ℕ → ModelTables → Type 0
IsWithinCeiling scope period t =
    (a : BudgetAccount) × (find_account scope period t.accounts ≡ some a)
    × (a.reserved_micro_usd + a.settled_micro_usd ≤ a.ceiling_micro_usd)

refuses_account-none :
    (scope : BudgetScope) (amount : ℕ) (o : Option BudgetAccount)
    → refuses_account scope amount o ≡ none
    → (a : BudgetAccount) × (o ≡ some a)
      × (a.reserved_micro_usd + a.settled_micro_usd + amount ≤ a.ceiling_micro_usd)
refuses_account-none scope amount none h = cc
refuses_account-none scope amount (some a) h = (a, refl, ground (arith, h))

abbrev HasRoom : BudgetAccount → Type 0
HasRoom a = a.reserved_micro_usd + a.settled_micro_usd ≤ a.ceiling_micro_usd

add-room :
    (r : Reservation) (a : BudgetAccount)
    → a.reserved_micro_usd + a.settled_micro_usd + r.amount ≤ a.ceiling_micro_usd
    → HasRoom (update_account (pays r.key r.user r.period) (add_reservation r.amount) a)
add-room r a room = elim (Bool-cases (pays r.key r.user r.period a)) [
  | inl chosen ↦ rw chosen (omega (arith, room))
  | inr other ↦ rw other (omega (arith, room))
]

engage-room :
    (r : Reservation) (a : BudgetAccount)
    → HasRoom a
    → HasRoom (engage_kill_switch r.key r.period a)
engage-room r a room =
    elim (Bool-cases (is_account (environment_account r.key) r.period a && is_spent a)) [
      | inl spent ↦ rw spent room
      | inr open_still ↦ rw open_still room
    ]

-- An account that had room is within its ceiling after the reservation and the kill switch.
reserved-IsWithinCeiling :
    (scope : AccountScope) (r : Reservation) (t t₁ : ModelTables) (a : BudgetAccount)
    → t₁.accounts ≡ map (engage_kill_switch r.key r.period) (reserved_accounts r t.accounts)
    → find_account scope r.period (opened_accounts r t.accounts) ≡ some a
    → a.reserved_micro_usd + a.settled_micro_usd + r.amount ≤ a.ceiling_micro_usd
    → IsWithinCeiling scope r.period t₁
reserved-IsWithinCeiling scope r t t₁ a accounts found room =
    let add = update_account (pays r.key r.user r.period) (add_reservation r.amount) in
    let engage = engage_kill_switch r.key r.period in
    let mapped =
      find_account-map scope r.period engage (reserved_accounts r t.accounts)
        (update_account-KeepsAccount _ _ (λ x. (refl, refl)))
      ∙ ap (Option.map engage) (
          find_account-map scope r.period add (opened_accounts r t.accounts)
            (update_account-KeepsAccount _ _ (λ x. (refl, refl)))) in
    let after : find_account scope r.period t₁.accounts ≡ some (engage (add a)) =
      ap (find_account scope r.period) accounts
      ∙ mapped
      ∙ ap (λ x. Option.map engage (Option.map add x)) found in
    (engage (add a), after, engage-room r (add a) (add-room r a room))

pub reserve-IsWithinCeiling :
    (r : Reservation) (t t₁ : ModelTables)
    → reserve r t ≡ ok t₁
    → IsWithinCeiling (environment_account r.key) r.period t₁
      × IsWithinCeiling (user_account r.user) r.period t₁
unfolding refuses_reservation
reserve-IsWithinCeiling r t t₁ h =
    let (allowed, operations, attempts, accounts) = reserve-ok r t t₁ h in
    let opened = opened_accounts r t.accounts in
    let environment = find_account (environment_account r.key) r.period opened in
    let user = find_account (user_account r.user) r.period opened in
    elim (Bool-cases (is_killed environment)) [
      | inl killed ↦ absurd (ground (arith, allowed, killed))
      | inr running ↦ elim (Option-cases (refuses_account environment_month r.amount environment)) [
        | inr (e, refused_for) ↦ absurd (ground (arith, allowed, running, refused_for))
        | inl environment_pays ↦
            let user_pays : refuses_account user_month r.amount user ≡ none =
              ground (arith, allowed, running, environment_pays) in
            let (a, found, room) =
              refuses_account-none environment_month r.amount environment environment_pays in
            let (b, found_user, room_user) =
              refuses_account-none user_month r.amount user user_pays in
            (
              reserved-IsWithinCeiling (environment_account r.key) r t t₁ a accounts found room,
              reserved-IsWithinCeiling (user_account r.user) r t t₁ b accounts found_user room_user,
            )
      ]
    ]

-- An operation that is prepared with a reservation leaves its environment's and its user's account of
-- the month within their ceilings, what is reserved and what is settled together: a reservation is
-- made only where both have room for it.
pub prepared-IsWithinCeiling :
    (m : Moment) (input : PrepareStoreInput) (id : ℕ) (t t' : ModelTables)
    → prepare m input t ≡ (ok (operation_prepared id), t')
    → 1 ≤ input.reserved_cost_micro_usd
    → IsWithinCeiling (environment_account input.environment_budget_key) m.period t'
      × IsWithinCeiling (user_account input.user_id) m.period t'
unfolding prepare
prepared-IsWithinCeiling m input id t t' h some_cost =
    elim (Option-cases (select operation_id input.operation_id t.operations)) [
      | inr (existing, found) ↦
          elim (Bool-cases (same_digest existing.input_digest input.input_digest)) [
            | inl same ↦ absurd (ground (arith, h, found, same))
            | inr other ↦ absurd (ground (arith, h, found, other))
          ]
      | inl absent ↦ elim (Result-cases (reserve (prepare_reservation m input) t)) [
        | inl (e, failed) ↦ absurd (ground (arith, h, absent, some_cost, failed))
        | inr (t₁, made) ↦
            let same : t' ≡ insert_operation (new_operation m input) t₁ =
              ground (arith, h, absent, some_cost, made) in
            rw same (reserve-IsWithinCeiling (prepare_reservation m input) t t₁ made)
      ]
    ]
