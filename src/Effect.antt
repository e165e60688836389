-- ===== src/Effect.antt =====
-- The Effect programs of the source as functions of an explicit state: a program returns its
-- success or its typed failure together with the state that it leaves.
use xpens_go.Prelude.{arith, refl, ◌≡◌}

pub data Result {ℓ κ} (E : Type ℓ) (A : Type κ) : Type (ℓ ⊔ κ) where
  ok : A → Result E A
  err : E → Result E A

-- `Effect.Effect<A, E>` over the state `S` that its services share.
abbrev pub Effect : Type 0 → Type 0 → Type 0 → Type 0
Effect S E A = S → Result E A × S

abbrev pub succeed : {S E A : Type 0} → A → Effect S E A
succeed a s = (ok a, s)

abbrev pub fail : {S E A : Type 0} → E → Effect S E A
fail e s = (err e, s)

abbrev pub resume : {S E A B : Type 0} → (A → Effect S E B) → Result E A × S → Result E B × S
resume f (ok a, s) = f a s
resume f (err e, s) = (err e, s)

-- `yield*` in a generator.
infixl 5 ◌>>=◌ ◌>>◌
abbrev pub ◌>>=◌ : {S E A B : Type 0} → Effect S E A → (A → Effect S E B) → Effect S E B
◌>>=◌ m f s = resume f (m s)

abbrev pub ◌>>◌ : {S E A B : Type 0} → Effect S E A → Effect S E B → Effect S E B
m >> k = m >>= λ _. k

-- `Effect.either`: the failure becomes a value.
abbrev pub reify : {S E F A : Type 0} → Result E A × S → Result F (Result E A) × S
reify (r, s) = (ok r, s)

abbrev pub either : {S E F A : Type 0} → Effect S E A → Effect S F (Result E A)
either m s = reify (m s)

abbrev pub commit : {S E A : Type 0} → S → Result E A × S → Result E A × S
commit before (ok a, after) = (ok a, after)
commit before (err e, after) = (err e, before)

-- `sql.withTransaction`: a failure undoes every change of the transaction.
abbrev pub with_transaction : {S E A : Type 0} → Effect S E A → Effect S E A
with_transaction m s = commit s (m s)

-- A program that succeeds has succeeded in its first step, and its rest has then succeeded.
pub resume-eq-ok :
    {S E A B : Type 0} (r : Result E A × S) (f : A → Effect S E B) {b : B} {s' : S}
    → resume f r ≡ (ok b, s')
    → (a : A) × (s : S) × (r ≡ (ok a, s)) × (f a s ≡ (ok b, s'))
resume-eq-ok (ok a, s) f h = (a, s, refl, h)
resume-eq-ok (err e, s) f h = absurd (ground arith)
