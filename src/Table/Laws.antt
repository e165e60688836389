-- ===== src/Table/Laws.antt =====
-- How the statements of `Table` act on the rows they select.
use xpens_go.Prelude.{
  ==_iff, ==_refl, ==_sym, All, All-zip, Bool, Bool-cases, List, [], arith, contains, false, filter,
  if◌then◌else◌, inl, inr, length, length-filter-false, length-filter_or, map, none, refl, some,
  subst, suc, sym, take, true, zero, ℕ, ◌==◌, ◌∷◌, ◌≡◌, ◌≤◌,
}
use xpens_go.Table.{HasUniqueKeys, KeepsKey, select, update}
use mathlib.Core.Option

module _ {R : Type 0} (key : R → ℕ) where
  -- A row is selected by its own key.
  pub key-select : (k : ℕ) (t : List R) (r : R) → select key k t ≡ some r → key r ≡ k
  key-select k [] r e = ground arith
  key-select k (x ∷ rs) r e = ground (arith, key-select k rs r)

  pub select-All :
      (P : R → Type 0) (k : ℕ) (t : List R) (r : R) → All P t → select key k t ≡ some r → P r
  select-All P k [] r h e = cc
  select-All P k (x ∷ rs) r (p, h) e = elim (Bool-cases (key x == k)) [
    | inl here ↦ subst P (ground arith) p
    | inr there ↦ select-All P k rs r h (ground arith)
  ]

  pub select-map :
      (f : R → R)
      → KeepsKey key f
      → (k : ℕ) (t : List R) → select key k (map f t) ≡ Option.map f (select key k t)
  select-map f keep k [] = refl
  select-map f keep k (r ∷ rs) = ground (arith, keep r, select-map f keep k rs)

  pub select-update_self :
      (k : ℕ) (f : R → R)
      → KeepsKey key f
      → (t : List R) → select key k (update key k f t) ≡ Option.map f (select key k t)
  select-update_self k f keep [] = refl
  select-update_self k f keep (r ∷ rs) = ground (arith, keep r, select-update_self k f keep rs)

  pub select-update_ne :
      (k j : ℕ) (f : R → R)
      → KeepsKey key f
      → (j == k) ≡ false
      → (t : List R) → select key j (update key k f t) ≡ select key j t
  select-update_ne k j f keep ne [] = refl
  select-update_ne k j f keep ne (r ∷ rs) =
      ground (arith, keep r, select-update_ne k j f keep ne rs)

  pub update-All :
      (P : R → Type 0) (k : ℕ) (f : R → R) (t : List R)
      → ((r : R) → P r → P (f r))
      → All P t
      → All P (update key k f t)
  update-All P k f [] keep h = tt
  update-All P k f (r ∷ rs) keep (p, h) = (ground (arith, keep r), update-All P k f rs keep h)

  pub map-key_KeepsKey : (f : R → R) → KeepsKey key f → (t : List R) → map key (map f t) ≡ map key t
  map-key_KeepsKey f keep [] = refl
  map-key_KeepsKey f keep (r ∷ rs) = ground (arith, keep r, map-key_KeepsKey f keep rs)

  pub update-eq-map :
      (k : ℕ) (f : R → R) (t : List R)
      → update key k f t ≡ map (λ r. if key r == k then f r else r) t
  update-eq-map k f [] = refl
  update-eq-map k f (r ∷ rs) = rw (update-eq-map k f rs)

  pub map-key-update :
      (k : ℕ) (f : R → R) → KeepsKey key f → (t : List R) → map key (update key k f t) ≡ map key t
  map-key-update k f keep [] = refl
  map-key-update k f keep (r ∷ rs) = ground (arith, keep r, map-key-update k f keep rs)

  pub HasUniqueKeys-map :
      (f : R → R)
      → KeepsKey key f
      → (t : List R) → HasUniqueKeys key t
      → HasUniqueKeys key (map f t)
  HasUniqueKeys-map f keep [] h = tt
  HasUniqueKeys-map f keep (r ∷ rs) (p, h) =
      (simp (map-key_KeepsKey f keep rs, keep r) p, HasUniqueKeys-map f keep rs h)

  pub HasUniqueKeys-update :
      (k : ℕ) (f : R → R)
      → KeepsKey key f
      → (t : List R) → HasUniqueKeys key t
      → HasUniqueKeys key (update key k f t)
  HasUniqueKeys-update k f keep t u =
      rw (update-eq-map k f t)
        (HasUniqueKeys-map (λ r. if key r == k then f r else r) (λ r. ground (arith, keep r)) t u)

  -- A row of a table with unique keys is the one that its key selects.
  pub absent-All :
      (k : ℕ) (t : List R) → contains (map key t) k ≡ false → All (λ r. (key r == k) ≡ false) t
  absent-All k [] h = tt
  absent-All k (r ∷ rs) h = (ground arith, absent-All k rs (ground arith))

  pub select-own_All :
      (t : List R) → HasUniqueKeys key t → All (λ r. select key (key r) t ≡ some r) t
  select-own_All [] h = tt
  select-own_All (r ∷ rs) (absent, h) = (
    ground (arith, ==_refl (key r)),
    All-zip (λ x. (key x == key r) ≡ false) (λ x. select key (key x) rs ≡ some x)
        (λ x. select key (key x) (r ∷ rs) ≡ some x) rs (λ x ne own. ground arith)
        (absent-All (key r) rs absent) (select-own_All rs h),
  )

  pub contains-filter :
      (p : R → Bool) (k : ℕ) (t : List R)
      → contains (map key (filter p t)) k ≡ true
      → contains (map key t) k ≡ true
  contains-filter p k [] h = h
  contains-filter p k (r ∷ rs) h = ground (arith, contains-filter p k rs)

  pub contains-take :
      (n k : ℕ) (t : List R)
      → contains (map key (take n t)) k ≡ true
      → contains (map key t) k ≡ true
  contains-take zero k t h = cc
  contains-take (suc n) k [] h = h
  contains-take (suc n) k (r ∷ rs) h = ground (arith, contains-take n k rs)

  -- The key of a filtered row selects a row that passes the filter.
  pub select-filter :
      (p : R → Bool) (k : ℕ) (t : List R)
      → HasUniqueKeys key t
      → contains (map key (filter p t)) k ≡ true
      → (r : R) × (select key k t ≡ some r) × (p r ≡ true)
  select-filter p k [] u h = cc
  select-filter p k (r ∷ rs) (absent, u) h = elim (Bool-cases (key r == k)) [
    | inl here ↦ elim (Bool-cases (p r)) [
      | inl passes ↦ (r, ground arith, passes)
      | inr fails ↦ ground (arith, contains-filter p k rs, ==_iff (key r) k)
    ]
    | inr there ↦
        let (r', found, passes) = select-filter p k rs u (ground arith) in
        (r', ground arith, passes)
  ]

  -- A key whose rows all fail the filter is not among the filtered rows' keys.
  pub contains-filter_none :
      (p : R → Bool) (k : ℕ) (t : List R)
      → All (λ r. (key r == k) ≡ true → p r ≡ false) t
      → contains (map key (filter p t)) k ≡ false
  contains-filter_none p k [] h = refl
  contains-filter_none p k (r ∷ rs) (here, h) = elim (Bool-cases (key r == k)) [
    | inl same ↦ ground (arith, here same, contains-filter_none p k rs h)
    | inr other ↦ ground (arith, contains-filter_none p k rs h)
  ]

  pub select-contains :
      (k : ℕ) (t : List R) → contains (map key t) k ≡ true → (r : R) × (select key k t ≡ some r)
  select-contains k [] h = cc
  select-contains k (r ∷ rs) h = elim (Bool-cases (key r == k)) [
    | inl here ↦ (r, ground arith)
    | inr there ↦ let (r', found) = select-contains k rs (ground arith) in (r', ground arith)
  ]

  pub contains-select :
      (k : ℕ) (t : List R) (r : R) → select key k t ≡ some r → contains (map key t) k ≡ true
  contains-select k [] r e = cc
  contains-select k (x ∷ rs) r e = ground (arith, contains-select k rs r)

  pub select-absent : (k : ℕ) (t : List R) → contains (map key t) k ≡ false → select key k t ≡ none
  select-absent k [] h = refl
  select-absent k (r ∷ rs) h = ground (arith, select-absent k rs)

  -- With unique keys, no more rows are listed than there are keys in the list.
  length-filter_absent :
      (k : ℕ) (t : List R)
      → contains (map key t) k ≡ false
      → length (filter (λ r. k == key r) t) ≡ 0
  length-filter_absent k [] h = refl
  length-filter_absent k (r ∷ rs) h = ground (arith, ==_sym k (key r), length-filter_absent k rs)

  length-filter_one :
      (k : ℕ) (t : List R) → HasUniqueKeys key t → length (filter (λ r. k == key r) t) ≤ 1
  length-filter_one k [] u = omega arith
  length-filter_one k (r ∷ rs) (absent, u) = elim (Bool-cases (k == key r)) [
    | inl same ↦ ground (
      arith,
      ==_iff k (key r),
      length-filter_absent k rs
          (subst (λ x. contains (map key rs) x ≡ false) (sym ((==_iff k (key r)).0 same)) absent),
    )
    | inr other ↦ ground (arith, length-filter_one k rs u)
  ]

  pub length-filter-contains :
      (ks : List ℕ) (t : List R)
      → HasUniqueKeys key t
      → length (filter (λ r. contains ks (key r)) t) ≤ length ks
  length-filter-contains [] t u = omega (arith, length-filter-false t)
  length-filter-contains (k ∷ ks) t u = omega (
    arith,
    length-filter_or (λ r. k == key r) (λ r. contains ks (key r)) t,
    length-filter_one k t u,
    length-filter-contains ks t u,
  )

  pub contains-filter-some :
      (p : R → Bool) (k : ℕ) (t : List R) (r : R)
      → select key k t ≡ some r
      → p r ≡ true
      → contains (map key (filter p t)) k ≡ true
  contains-filter-some p k [] r e h = cc
  contains-filter-some p k (x ∷ rs) r e h = elim (Bool-cases (key x == k)) [
    | inl here ↦
        let same : x ≡ r = ground arith in
        let passes : p x ≡ true = subst (λ y. p y ≡ true) (sym same) h in ground arith
    | inr there ↦ ground (arith, contains-filter-some p k rs r)
  ]
