-- ===== src/Prelude/Lists.antt =====
-- Lists measured by native numbers, and predicates on lists by recursion.
use Prim.Native.Nat.{ℕ, zero, suc, ◌+◌, ◌≤◌}
use mathlib.Core.Path.{ap, ◌≡◌, refl}
use mathlib.Core.Bool.{Bool, true, false, ◌||◌}
use mathlib.Core.Logic.{inl, inr}
use mathlib.Core.List.{List, [], ◌∷◌, map}
use native.Mathlib.Omega.{arith}
use xpens_go.Prelude.Tests.{Bool-cases, ◌==◌, if◌then◌else◌}

module _ {ℓ} {A : Type ℓ} where
  abbrev pub length : List A → ℕ
  length [] = 0
  length (x ∷ xs) = suc (length xs)

  abbrev pub take : ℕ → List A → List A
  take zero xs = []
  take (suc n) [] = []
  take (suc n) (x ∷ xs) = x ∷ take n xs

  pub length-take : (n : ℕ) (xs : List A) → length (take n xs) ≤ n
  length-take zero xs = omega arith
  length-take (suc n) [] = omega arith
  length-take (suc n) (x ∷ xs) = omega (arith, length-take n xs)

  abbrev pub filter : (A → Bool) → List A → List A
  filter p [] = []
  filter p (x ∷ xs) = let rest = filter p xs in if p x then x ∷ rest else rest

  -- How many elements pass the test.
  abbrev pub count : (A → Bool) → List A → ℕ
  count p [] = 0
  count p (x ∷ xs) = let rest = count p xs in if p x then suc rest else rest

abbrev pub All {ℓ κ} : {A : Type ℓ} → (A → Type κ) → List A → Type κ
All P [] = Unit
All P (x ∷ xs) = P x × All P xs

module _ {A B : Type 0} (P : A → Type 0) (Q : B → Type 0) where
  pub All-map : (f : A → B) (xs : List A) → ((x : A) → P x → Q (f x)) → All P xs → All Q (map f xs)
  All-map f [] keep h = tt
  All-map f (x ∷ xs) keep (p, h) = (keep x p, All-map f xs keep h)

module _ {A : Type 0} (P Q R : A → Type 0) where
  pub All-zip : (xs : List A) → ((x : A) → P x → Q x → R x) → All P xs → All Q xs → All R xs
  All-zip [] f hp hq = tt
  All-zip (x ∷ xs) f (p, hp) (q, hq) = (f x p q, All-zip xs f hp hq)

module _ {A : Type 0} where
  pub All-of : (P : A → Type 0) (xs : List A) → ((x : A) → P x) → All P xs
  All-of P [] f = tt
  All-of P (x ∷ xs) f = (f x, All-of P xs f)

  pub All-mono : (P Q : A → Type 0) (xs : List A) → ((x : A) → P x → Q x) → All P xs → All Q xs
  All-mono P Q [] f h = tt
  All-mono P Q (x ∷ xs) f (p, h) = (f x p, All-mono P Q xs f h)

-- Whether an identifier is listed.
abbrev pub contains : List ℕ → ℕ → Bool
contains [] k = false
contains (x ∷ xs) k = (x == k) || contains xs k

module _ {A : Type 0} where
  pub All-filter :
      (P : A → Type 0) (p : A → Bool) (xs : List A)
      → All (λ x. p x ≡ true → P x) xs
      → All P (filter p xs)
  All-filter P p [] h = tt
  All-filter P p (x ∷ xs) (here, h) = elim (Bool-cases (p x)) [
    | inl passes ↦ rw (passes, filter) (here passes, All-filter P p xs h)
    | inr fails ↦ rw (fails, filter) (All-filter P p xs h)
  ]

  pub length-filter_or :
      (p q : A → Bool) (xs : List A)
      → length (filter (λ x. p x || q x) xs) ≤ length (filter p xs) + length (filter q xs)
  length-filter_or p q [] = omega arith
  length-filter_or p q (x ∷ xs) = ground (arith, length-filter_or p q xs)

  pub length-filter-false : (xs : List A) → length (filter (λ _. false) xs) ≡ 0
  length-filter-false [] = refl
  length-filter-false (x ∷ xs) = length-filter-false xs

pub length-map : {A B : Type 0} (xs : List A) (f : A → B) → length (map f xs) ≡ length xs
length-map [] f = refl
length-map (x ∷ xs) f = ap suc (length-map xs f)

-- The sum of a measure over a list.
abbrev pub total : {A : Type 0} → (A → ℕ) → List A → ℕ
total w [] = 0
total w (x ∷ xs) = w x + total w xs
