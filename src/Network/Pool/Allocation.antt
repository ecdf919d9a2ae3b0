-- ===== src/Network/Pool/Allocation.antt =====
-- Which slot `Allocate` of network/pool.go hands out, and when it has none.
use gitvm.Base.{
  ℕ, zero, suc, ◌+◌, ◌≤◌, ◌<◌, ◌≡◌, ◌≢◌, inl, inr, refl, Bool, true, false, Option, none, some,
  Result, ok, err, arith, if◌then◌else◌, Bool-cases, Option-cases, nat_comparable, ◌==◌, ap,
  nat_beq_iff, ◌↔◌, sym, ◌∙◌,
}
use mathlib.Core.Bool.{false≢true}
use gitvm.Base.Table.{Table, insert, remove, lookup-insert, lookup-remove}
use gitvm.Network.Slot.{Slot, new_slot}
use gitvm.Network.Host.{Command, Trace}
use gitvm.Network.Pool.Cases.{attach-cases, allocate-cases}
use gitvm.Network.Pool.{
  Pool, AllocateError, no_free_slots, is_allocated, first_free, attach, allocate, release,
}

-- The result of the search: the least free slot from `i` on, or none below `i + left`.
abbrev pub IsFirstFree : Table ℕ Bool → ℕ → ℕ → Option ℕ → Type 0
IsFirstFree m left i none = (j : ℕ) → i ≤ j → j < i + left → is_allocated m j ≡ true
IsFirstFree m left i (some id) =
    (i ≤ id)
    × (id < i + left)
    × (is_allocated m id ≡ false)
    × ((j : ℕ) → i ≤ j → j < id → is_allocated m j ≡ true)

-- A taken slot in front changes nothing.
IsFirstFree-widen :
    (m : Table ℕ Bool) (left i : ℕ) (r : Option ℕ)
    → is_allocated m i ≡ true
    → IsFirstFree m left (suc i) r
    → IsFirstFree m (suc left) i r
IsFirstFree-widen m left i none here f = λ j lo hi. grind (arith, f j)
IsFirstFree-widen m left i (some id) here f =
    (omega arith, omega arith, f.2, λ j lo hi. grind (arith, f.3 j))

first_free-IsFirstFree :
    (m : Table ℕ Bool) (left i : ℕ) → IsFirstFree m left i (first_free m left i)
unfolding first_free
first_free-IsFirstFree m zero i = λ j lo hi. absurd (omega arith)
first_free-IsFirstFree m (suc left) i = elim (Bool-cases (is_allocated m i)) [
  | inl taken ↦
      rw (taken, first_free)
        (IsFirstFree-widen m left i _ taken (first_free-IsFirstFree m left (suc i)))
  | inr free ↦
      rw (free, first_free) (omega arith, omega arith, free, λ j lo hi. absurd (omega arith))
]

-- What a call of `Allocate` on `p` may return, with the pool that it leaves.
abbrev pub IsAllocation : Pool → Result AllocateError Slot × Pool × Trace → Type 0
IsAllocation p (err e, q, t) = q ≡ p
IsAllocation p (ok slot, q, t) =
    (slot ≡ new_slot slot.id)
    × (slot.id < p.max_slots)
    × (is_allocated p.allocated slot.id ≡ false)
    × ((j : ℕ) → j < slot.id → is_allocated p.allocated j ≡ true)
    × (q ≡ record p { allocated = insert slot.id true p.allocated })

module _ (succeeds : Trace → Command → Bool) where
  attach-IsAllocation :
      (p : Pool) (id : ℕ) (t : Trace)
      → id < p.max_slots
      → is_allocated p.allocated id ≡ false
      → ((j : ℕ) → j < id → is_allocated p.allocated j ≡ true)
      → IsAllocation p (attach succeeds p id t)
  unfolding new_slot
  attach-IsAllocation p id t lt free below =
      attach-cases succeeds p t (IsAllocation p) id (λ e _. refl) (λ e _ _. refl)
        (λ _ _. (refl, lt, free, below, refl))

  attach-ne-full :
      (p : Pool) (id : ℕ) (t : Trace) → (attach succeeds p id t).0 ≢ err (no_free_slots p.max_slots)
  unfolding attach
  attach-ne-full p id t = ground arith

  -- A successful Allocate hands out the least free slot below the limit and marks it alone; a
  -- failed one leaves the pool as it was.
  pub allocate-IsAllocation : (p : Pool) (t : Trace) → IsAllocation p (allocate succeeds p t)
  allocate-IsAllocation p t =
      let search = first_free-IsFirstFree p.allocated p.max_slots 0 in
      allocate-cases succeeds p t (IsAllocation p) (λ _. refl)
        λ id found.
          let least : IsFirstFree p.allocated p.max_slots 0 (some id) = rw found at search in
          attach-IsAllocation p id t (omega arith) least.2 (λ j h. least.3 j (omega arith) h)

  -- Allocate reports that the pool is full exactly when every slot below the limit is taken.
  pub allocate_full_iff :
      (p : Pool) (t : Trace)
      → ((allocate succeeds p t).0 ≡ err (no_free_slots p.max_slots))
        ↔ ((j : ℕ) → j < p.max_slots → is_allocated p.allocated j ≡ true)
  unfolding allocate
  allocate_full_iff p t =
      let search = first_free-IsFirstFree p.allocated p.max_slots 0 in
      elim (Option-cases (first_free p.allocated p.max_slots 0)) [
        | inl full ↦
            let none_free : IsFirstFree p.allocated p.max_slots 0 none = rw full at search in
            rw (full, allocate) (λ _ j h. none_free j (omega arith) (omega arith), λ _. refl)
        | inr (id, found) ↦
            let least : IsFirstFree p.allocated p.max_slots 0 (some id) = rw found at search in
            rw (found, allocate)
              (
                λ e. absurd (attach-ne-full p id t e),
                λ all. absurd (false≢true (sym least.2 ∙ all id (omega arith))),
              )
      ]

-- Only the slot that is allocated or released changes.
pub allocated-insert :
    (m : Table ℕ Bool) (i j : ℕ)
    → is_allocated (insert i true m) j ≡ (if i == j then true else is_allocated m j)
unfolding is_allocated
allocated-insert m i j = ground (arith, lookup-insert i j true m)

pub allocated-remove :
    (m : Table ℕ Bool) (i j : ℕ)
    → is_allocated (remove i m) j ≡ (if i == j then false else is_allocated m j)
unfolding is_allocated
allocated-remove m i j = ground (arith, lookup-remove i j m)

module _ (succeeds : Trace → Command → Bool) where
  -- A slot that is released is free again, and the other slots are as before.
  pub release-is_allocated :
      (p : Pool) (slot : Slot) (t : Trace) (j : ℕ)
      → is_allocated (release succeeds p slot t).0.allocated j
        ≡ (if slot.id == j then false else is_allocated p.allocated j)
  unfolding release
  release-is_allocated p slot t j = allocated-remove p.allocated slot.id j

  -- Releasing what Allocate has just handed out gives every slot the state it had before.
  pub release-allocate :
      (p q : Pool) (slot : Slot) (t t' : Trace) (j : ℕ)
      → allocate succeeds p t ≡ (ok slot, q, t')
      → is_allocated (release succeeds q slot t').0.allocated j ≡ is_allocated p.allocated j
  release-allocate p q slot t t' j e =
      let outcome : IsAllocation p (ok slot, q, t') =
        rw e at (allocate-IsAllocation succeeds p t) in
      ground (
        arith,
        release-is_allocated q slot t' j,
        ap (λ (r : Pool). r.allocated) outcome.4,
        allocated-insert p.allocated slot.id j,
        nat_beq_iff slot.id j,
      )
