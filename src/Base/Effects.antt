-- ===== src/Base/Effects.antt =====
-- Actions on the outside world that succeed or fail. Whether an action succeeds is a parameter,
-- which may depend on all that was done before; the trace holds each action with its outcome, newest
-- first.
use Prim.Native.Nat.{ℕ, zero, suc}
use mathlib.Core.Bool.{Bool}
use mathlib.Core.List.{List, ◌∷◌}
use gitvm.Base.Tests.{if◌then◌else◌}
use gitvm.Base.Outcome.{Result, ok, err}

abbrev pub Trace {ℓ} : Type ℓ → Type ℓ
Trace A = List (A × Bool)

module _ {A : Type 0} (succeeds : Trace A → A → Bool) where
  unfoldable pub perform : A → Trace A → Bool × Trace A
  perform a t = (succeeds t a, (a, succeeds t a) ∷ t)

  -- `if err := a(); err != nil { return e }`, and what follows
  unfoldable pub attempt :
      {E B : Type 0} → A → E → (Trace A → Result E B × Trace A) → Trace A → Result E B × Trace A
  attempt a e k t =
      let (done, t') = perform a t in let next = k t' in if done then next else (err e, t')

  -- `for i := 0; i < n; i++ { if a() succeeds { return nil } }; return e`
  unfoldable pub poll : {E : Type 0} → ℕ → A → E → Trace A → Result E (Unit {0}) × Trace A
  poll zero a e t = (err e, t)
  poll (suc n) a e t =
      let (done, t') = perform a t in
      let later = poll n a e t' in if done then (ok tt, t') else later
