-- ===== src/Base/Table.antt =====
-- Go's maps, as association lists in which a key occurs once.
use Prim.Native.Nat.{ℕ, suc, ◌+◌}
use mathlib.Core.Path.{◌≡◌, refl, subst₂}
use mathlib.Core.Option.{Option, none, some}
use mathlib.Core.List.{List, [], ◌∷◌}
use mathlib.Core.Logic.{◌≢◌, inl, inr}
use native.Mathlib.Omega.{arith}
use gitvm.Base.Tests.{if◌then◌else◌, Bool-cases}
use gitvm.Base.Class.{Comparable, ◌==◌, ==_refl}

abbrev pub Table {ℓ κ} : Type ℓ → Type κ → Type (ℓ ⊔ κ)
Table K V = List (K × V)

module _ {ℓ κ} {K : Type ℓ} {V : Type κ} where
  -- `len(m)`
  abbrev pub size : Table K V → ℕ
  size [] = 0
  size (_ ∷ m) = suc (size m)

  -- The values, in the order of the list. Go's `range` promises no order.
  unfoldable pub values : Table K V → List V
  values [] = []
  values ((_, v) ∷ m) = v ∷ values m

module _ {ℓ κ} {K : Type ℓ} {V : Type κ} ⦃e : Comparable K⦄ where
  -- `v, ok := m[k]`
  unfoldable pub lookup : K → Table K V → Option V
  lookup key [] = none
  lookup key ((at, value) ∷ rest) = if at == key then some value else lookup key rest

  -- `m[k] = v`
  unfoldable pub insert : K → V → Table K V → Table K V
  insert k v [] = (k, v) ∷ []
  insert k v ((j, w) ∷ m) = if j == k then (k, v) ∷ m else (j, w) ∷ insert k v m

  -- `delete(m, k)`
  unfoldable pub remove : K → Table K V → Table K V
  remove k [] = []
  remove k ((j, v) ∷ m) = let rest = remove k m in if j == k then rest else (j, v) ∷ rest

  pub lookup-insert :
      (k j : K) (new : V) (m : Table K V)
      → lookup j (insert k new m) ≡ (if k == j then some new else lookup j m)
  unfolding lookup insert
  lookup-insert k j new [] = refl
  lookup-insert k j new ((i, w) ∷ m) =
      ground (arith, e.same_iff k j, e.same_iff i k, e.same_iff i j, lookup-insert k j new m)

  pub lookup-remove :
      (k j : K) (m : Table K V) → lookup j (remove k m) ≡ (if k == j then none else lookup j m)
  unfolding lookup remove
  lookup-remove k j [] = ground arith
  lookup-remove k j ((i, w) ∷ m) =
      ground (arith, e.same_iff k j, e.same_iff i k, e.same_iff i j, lookup-remove k j m)

  pub lookup-insert_self : (k : K) (v : V) (m : Table K V) → lookup k (insert k v m) ≡ some v
  lookup-insert_self k v m = ground (arith, lookup-insert k k v m, ==_refl k)

  pub lookup-insert_ne :
      (k j : K) (v : V) (m : Table K V) → k ≢ j → lookup j (insert k v m) ≡ lookup j m
  lookup-insert_ne k j v m h = ground (arith, lookup-insert k j v m, e.same_iff k j)

  pub lookup-remove_self : (k : K) (m : Table K V) → lookup k (remove k m) ≡ none
  lookup-remove_self k m = ground (arith, lookup-remove k k m, ==_refl k)

  pub lookup-remove_ne : (k j : K) (m : Table K V) → k ≢ j → lookup j (remove k m) ≡ lookup j m
  lookup-remove_ne k j m h = ground (arith, lookup-remove k j m, e.same_iff k j)

  pub size-insert :
      (k : K) (v : V) (m : Table K V)
      → size (insert k v m) ≡ (elim (lookup k m) [ none ↦ size m + 1 | some _ ↦ size m ])
  unfolding lookup insert
  size-insert k v [] = refl
  size-insert k v ((j, w) ∷ m) = ground (arith, size-insert k v m)

  -- A key occurs once.
  abbrev pub IsMap : Table K V → Type κ
  IsMap [] = Unit
  IsMap ((k, _) ∷ m) = (lookup k m ≡ none) × IsMap m

  pub insert-IsMap : (k : K) (v : V) (m : Table K V) → IsMap m → IsMap (insert k v m)
  unfolding lookup insert
  insert-IsMap k v [] h = (refl, tt)
  insert-IsMap k v ((j, w) ∷ m) h =
      ground (arith, insert-IsMap k v m h.1, lookup-insert k j v m, e.same_iff j k, e.same_iff k j)

  pub remove-IsMap : (k : K) (m : Table K V) → IsMap m → IsMap (remove k m)
  unfolding lookup remove
  remove-IsMap k [] h = tt
  remove-IsMap k ((j, w) ∷ m) h = ground (arith, remove-IsMap k m h.1, lookup-remove k j m)

  pub remove_missing : (k : K) (m : Table K V) → lookup k m ≡ none → remove k m ≡ m
  unfolding lookup remove
  remove_missing k [] h = refl
  remove_missing k ((j, w) ∷ m) h = ground (arith, remove_missing k m)

  pub size-remove :
      (k : K) (m : Table K V)
      → IsMap m
      → size m ≡ (elim (lookup k m) [ none ↦ size (remove k m) | some _ ↦ size (remove k m) + 1 ])
  unfolding lookup remove
  size-remove k [] h = refl
  size-remove k ((j, w) ∷ m) h =
      ground (arith, size-remove k m h.1, e.same_iff j k, remove_missing k m)

  -- Writing twice is writing once, and writing what is there changes nothing.
  pub insert-insert : (k : K) (v w : V) (m : Table K V) → insert k v (insert k w m) ≡ insert k v m
  unfolding insert
  insert-insert k v w [] = ground (arith, ==_refl k)
  insert-insert k v w ((j, x) ∷ m) = ground (arith, insert-insert k v w m, ==_refl k)

  pub insert-lookup : (k : K) (v : V) (m : Table K V) → lookup k m ≡ some v → insert k v m ≡ m
  unfolding lookup insert
  insert-lookup k v [] h = cc
  insert-lookup k v ((j, x) ∷ m) h = ground (arith, insert-lookup k v m, e.same_iff j k)

  -- What holds of each entry.
  abbrev pub Every {μ} : (K → V → Type μ) → Table K V → Type (ℓ ⊔ κ ⊔ μ)
  Every P m = (k : K) (v : V) → lookup k m ≡ some v → P k v

  pub Every-insert {μ} :
      (P : K → V → Type μ) (k : K) (v : V) (m : Table K V)
      → P k v
      → Every P m
      → Every P (insert k v m)
  Every-insert P k v m p h j w found = elim (Bool-cases (k == j)) [
    | inl hit ↦ subst₂ P ((e.same_iff k j).0 hit) (ground (arith, lookup-insert k j v m)) p
    | inr miss ↦ h j w (ground (arith, lookup-insert k j v m))
  ]

  pub Every-remove {μ} :
      (P : K → V → Type μ) (k : K) (m : Table K V) → Every P m → Every P (remove k m)
  Every-remove P k m h j w found = h j w (ground (arith, lookup-remove k j m))

  pub Every-tail {μ} :
      (P : K → V → Type μ) (k : K) (v : V) (m : Table K V)
      → lookup k m ≡ none
      → Every P ((k, v) ∷ m)
      → Every P m
  unfolding lookup
  Every-tail P k v m fresh h j w found = h j w (ground (arith, e.same_iff k j))

  pub Every-head {μ} :
      (P : K → V → Type μ) (k : K) (v : V) (m : Table K V) → Every P ((k, v) ∷ m) → P k v
  unfolding lookup
  Every-head P k v m h = h k v (ground (arith, ==_refl k))
