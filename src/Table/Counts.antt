-- ===== src/Table/Counts.antt =====
-- How an update of one row of a table with unique keys acts on what is counted and on what holds of
-- every row.
use xpens_go.Prelude.{
  ==_iff, All, Bool, Bool-cases, List, [], arith, contains, count, false, if◌then◌else◌, inl, inr,
  map, none, refl, some, subst, sym, total, ℕ, ◌+◌, ◌==◌, ◌∷◌, ◌≡◌,
}
use xpens_go.Table.{HasUniqueKeys, select, update}

module _ {R : Type 0} (key : R → ℕ) where
  update_absent :
      (k : ℕ) (f : R → R) (t : List R) → contains (map key t) k ≡ false → update key k f t ≡ t
  update_absent k f [] h = refl
  update_absent k f (r ∷ rs) h = ground (arith, update_absent k f rs)

  -- What holds of every row still does, if the update keeps it of the row that it selects.
  pub update_one-All :
      (P : R → Type 0) (k : ℕ) (f : R → R) (t : List R)
      → HasUniqueKeys key t
      → ((r : R) → select key k t ≡ some r → P r → P (f r))
      → All P t
      → All P (update key k f t)
  update_one-All P k f [] u keep h = tt
  update_one-All P k f (r ∷ rs) (absent, u) keep (p, h) = elim (Bool-cases (key r == k)) [
    | inl here ↦
        let own = (==_iff (key r) k).0 here in
        let rest : update key k f rs ≡ rs =
          update_absent k f rs (subst (λ x. contains (map key rs) x ≡ false) own absent) in
        rw (here, rest) (keep r (rw here refl) p, h)
    | inr there ↦ rw there (p, update_one-All P k f rs u (λ x found. keep x (rw there found)) h)
  ]

  -- What an update adds to a count is what it adds at the row that it selects.
  pub count-update :
      (p : R → Bool) (k : ℕ) (f : R → R) (t : List R) (r : R)
      → HasUniqueKeys key t
      → select key k t ≡ some r
      → (if p r then 1 else 0) + count p (update key k f t) ≡ (if p (f r) then 1 else 0) + count p t
  count-update p k f [] r u e = cc
  count-update p k f (x ∷ rs) r (absent, u) e = elim (Bool-cases (key x == k)) [
    | inl here ↦
        let own = (==_iff (key x) k).0 here in
        let rest : update key k f rs ≡ rs =
          update_absent k f rs (subst (λ y. contains (map key rs) y ≡ false) own absent) in
        let same : x ≡ r = ground (arith, here) in rw (here, rest, sym same) (ground arith)
    | inr there ↦
        let rest = count-update p k f rs r u (ground (arith, there)) in
        rw there (ground (arith, rest))
  ]

  -- A key that selects nothing is not there.
  pub contains-select-none :
      (k : ℕ) (t : List R) → select key k t ≡ none → contains (map key t) k ≡ false
  contains-select-none k [] h = refl
  contains-select-none k (r ∷ rs) h = elim (Bool-cases (key r == k)) [
    | inl here ↦ absurd (ground (arith, here, h))
    | inr there ↦ ground (arith, there, contains-select-none k rs (ground (arith, there, h)))
  ]

  -- An update that a test does not see.
  pub count-update_same :
      (p : R → Bool) (k : ℕ) (f : R → R) (t : List R)
      → ((r : R) → p (f r) ≡ p r)
      → count p (update key k f t) ≡ count p t
  count-update_same p k f [] same = refl
  count-update_same p k f (r ∷ rs) same = ground (arith, same r, count-update_same p k f rs same)

  -- What an update adds to a sum is what it adds at the row that it selects.
  pub total-update :
      (w : R → ℕ) (k : ℕ) (f : R → R) (t : List R) (r : R)
      → HasUniqueKeys key t
      → select key k t ≡ some r
      → w r + total w (update key k f t) ≡ w (f r) + total w t
  total-update w k f [] r u e = cc
  total-update w k f (x ∷ rs) r (absent, u) e = elim (Bool-cases (key x == k)) [
    | inl here ↦
        let own = (==_iff (key x) k).0 here in
        let rest : update key k f rs ≡ rs =
          update_absent k f rs (subst (λ y. contains (map key rs) y ≡ false) own absent) in
        let same : x ≡ r = ground (arith, here) in rw (here, rest, sym same) (omega arith)
    | inr there ↦
        let rest = total-update w k f rs r u (ground (arith, there)) in
        rw there (omega (arith, rest))
  ]
