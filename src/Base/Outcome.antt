-- ===== src/Base/Outcome.antt =====
-- A Go result `(A, error)`: one of the two is set.
use mathlib.Core.Path.{◌≡◌, refl}
use mathlib.Core.Logic.{◌⊎◌, inl, inr}

pub data Result {ℓ κ} (E : Type ℓ) (A : Type κ) : Type (ℓ ⊔ κ) where
  ok : A → Result E A
  err : E → Result E A

pub Result-cases {ℓ κ} :
    {E : Type ℓ} {A : Type κ} (r : Result E A) → ((a : A) × (r ≡ ok a)) ⊎ ((e : E) × (r ≡ err e))
Result-cases (ok a) = inl (a, refl)
Result-cases (err e) = inr (e, refl)

-- The state that a call leaves, its result dropped.
abbrev pub after {ℓ κ μ} : {R : Type ℓ} {S : Type κ} {W : Type μ} → R × S × W → S × W
after (r, s, w) = (s, w)
