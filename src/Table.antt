-- ===== src/Table.antt =====
-- A database table as the list of its rows, each with a key: the statements of the stores select
-- and update by key.
pub mod Laws
pub mod Counts
use xpens_go.Prelude.{
  ℕ, ◌≡◌, false, Option, none, some, List, [], ◌∷◌, map, ◌==◌, if◌then◌else◌, contains,
}

module _ {R : Type 0} (key : R → ℕ) where
  -- SELECT … WHERE id = k
  abbrev pub select : ℕ → List R → Option R
  select k [] = none
  select k (r ∷ rs) = if key r == k then some r else select k rs

  -- UPDATE … WHERE id = k
  abbrev pub update : ℕ → (R → R) → List R → List R
  update k f [] = []
  update k f (r ∷ rs) = (if key r == k then f r else r) ∷ update k f rs

  -- The primary key: no two rows have one key.
  abbrev pub HasUniqueKeys : List R → Type 0
  HasUniqueKeys [] = Unit
  HasUniqueKeys (r ∷ rs) = (contains (map key rs) (key r) ≡ false) × HasUniqueKeys rs

abbrev pub KeepsKey : {R : Type 0} → (R → ℕ) → (R → R) → Type 0
KeepsKey {R} key f = (r : R) → key (f r) ≡ key r
