-- ===== src/Network/Pool.antt =====
-- network/pool.go: the pool of network slots. Each method holds the pool's mutex from its first to
-- its last statement, so a call is one step on the pool.
pub mod Cases
pub mod Allocation
pub mod Bounds
pub mod Leftovers
pub mod Rules
use gitvm.Base.{
  ℕ, zero, suc, ◌+◌, ◌≡◌, String, Bool, true, false, Option, none, some, List, [], ◌∷◌, Result, ok,
  err, ℤ, positive_or, if◌then◌else◌, nat_comparable,
}
use gitvm.Base.Table.{Table, lookup, insert, remove, size}
use gitvm.Network.Slot.{Slot, new_slot}
use gitvm.Network.Host.{
  Command, Trace, HostError, interface_or_default, create_tap, destroy_tap, setup_nat, teardown_nat,
}

pub record Pool : Type 0 where
  pub max_slots : ℕ
  -- `map[int]bool`
  pub allocated : Table ℕ Bool
  pub host_interface : String

unfoldable pub new_pool : ℤ → String → Pool
unfolding interface_or_default
new_pool max_slots host_interface = record {
  max_slots = positive_or 255 max_slots;
  allocated = [];
  host_interface = interface_or_default host_interface;
}

-- `p.allocated[i]`: a missing key reads as `false`.
unfoldable pub is_allocated : Table ℕ Bool → ℕ → Bool
is_allocated m i = elim (lookup i m) [ none ↦ false | some b ↦ b ]

-- `for i := 0; i < p.maxSlots; i++`, with the rounds that are left. `none` stands for `id < 0`.
unfoldable pub first_free : Table ℕ Bool → ℕ → ℕ → Option ℕ
first_free m zero i = none
first_free m (suc left) i =
    let later = first_free m left (suc i) in if is_allocated m i then later else some i

pub data AllocateError : Type 0 where
  no_free_slots : ℕ → AllocateError
  create_tap_failed setup_nat_failed : HostError → AllocateError

module _ (succeeds : Trace → Command → Bool) where
  -- The calls after `NewSlot(id)`.
  unfoldable pub attach : Pool → ℕ → Trace → Result AllocateError Slot × Pool × Trace
  attach p id t =
      let slot = new_slot id in
      let (made, t₁) = create_tap succeeds slot t in
      let (natted, t₂) = setup_nat succeeds slot p.host_interface t₁ in
      elim made [
        | err e ↦ (err (create_tap_failed e), p, t₁)
        | ok _ ↦ elim natted [
          | err e ↦ (err (setup_nat_failed e), p, (destroy_tap succeeds slot t₂).1)
          | ok _ ↦ (ok slot, record p { allocated = insert id true p.allocated }, t₂)
        ]
      ]

  unfoldable pub allocate : Pool → Trace → Result AllocateError Slot × Pool × Trace
  unfolding attach
  allocate p t = elim (first_free p.allocated p.max_slots 0) [
    | none ↦ (err (no_free_slots p.max_slots), p, t)
    | some id ↦ attach p id t
  ]

  -- The result is always nil.
  unfoldable pub release : Pool → Slot → Trace → Pool × Trace
  release p slot t =
      let t₁ = teardown_nat succeeds slot p.host_interface t in
      (record p { allocated = remove slot.id p.allocated }, (destroy_tap succeeds slot t₁).1)

unfoldable pub count : Pool → ℕ
count p = size p.allocated
