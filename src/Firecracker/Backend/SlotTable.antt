-- ===== src/Firecracker/Backend/SlotTable.antt =====
-- The slots of runtime/firecracker/firecracker.go, and what entering, removing and writing back a
-- microVM does to their ownership.
use gitvm.Base.{
  ℕ, ◌≡◌, sym, ◌∙◌, ap, String, true, false, none, some, inl, inr, arith, Bool-cases, if◌then◌else◌,
  ◌==◌, string_comparable, nat_comparable, nat_beq_iff, ==_refl,
}
use gitvm.Base.Table.{lookup, insert, remove, lookup-insert, lookup-remove}
use gitvm.Network.Slot.{Slot}
use gitvm.Network.Pool.{is_allocated}
use gitvm.Firecracker.Backend.{VmInfo, Backend}

pub record Owns (f : Backend) : Type 0 where
  -- Two VMs never have the same slot.
  pub distinct :
      (i j : String) (a b : VmInfo)
      → lookup i f.vms ≡ some a
      → lookup j f.vms ≡ some b
      → a.slot.id ≡ b.slot.id
      → i ≡ j
  -- The slot of a VM is allocated.
  pub held :
      (i : String) (a : VmInfo)
      → lookup i f.vms ≡ some a
      → is_allocated f.net_pool.allocated a.slot.id ≡ true
  -- An allocated slot is the slot of some VM.
  pub owned :
      (k : ℕ)
      → is_allocated f.net_pool.allocated k ≡ true
      → (i : String) × (a : VmInfo) × (lookup i f.vms ≡ some a) × (a.slot.id ≡ k)

-- The VMs and the state of each slot are the same.
abbrev pub IsSame : Backend → Backend → Type 0
IsSame f g =
    (g.vms ≡ f.vms)
    × ((k : ℕ) → is_allocated g.net_pool.allocated k ≡ is_allocated f.net_pool.allocated k)

pub Owns-same : (f g : Backend) → IsSame f g → Owns f → Owns g
Owns-same f g s o = record {
  distinct = λ i j a b p q e.
      o.distinct i j a b (ap (lookup i) (sym s.0) ∙ p) (ap (lookup j) (sym s.0) ∙ q) e;
  held = λ i a p. s.1 a.slot.id ∙ o.held i a (ap (lookup i) (sym s.0) ∙ p);
  owned = λ k p.
      let (i, a, found, same) = o.owned k (sym (s.1 k) ∙ p) in
      (i, a, ap (lookup i) s.0 ∙ found, same);
}

-- A new VM in a slot that was free.
pub Owns-insert :
    (f g : Backend) (id : String) (info : VmInfo)
    → Owns f
    → lookup id f.vms ≡ none
    → is_allocated f.net_pool.allocated info.slot.id ≡ false
    → g.vms ≡ insert id info f.vms
    → ((k : ℕ)
        → is_allocated g.net_pool.allocated k
          ≡ (if info.slot.id == k then true else is_allocated f.net_pool.allocated k))
    → Owns g
Owns-insert f g id info o fresh free vms pool =
    let look = λ (j : String). ap (lookup j) vms ∙ lookup-insert id j info f.vms in
    record {
      distinct = λ i j a b p q e. ground (
        arith,
        look i,
        look j,
        string_comparable.same_iff id i,
        string_comparable.same_iff id j,
        o.distinct i j a b,
        o.held i a,
        o.held j b,
      );
      held = λ i a p.
          ground (arith, look i, o.held i a, pool a.slot.id, nat_beq_iff info.slot.id a.slot.id);
      owned = λ k p. elim (Bool-cases (info.slot.id == k)) [
        | inl here ↦
            (id, info, ground (arith, look id, ==_refl id), (nat_beq_iff info.slot.id k).0 here)
        | inr other ↦
            let (i, a, found, same) = o.owned k (sym (rw other at (pool k)) ∙ p) in
            (i, a, ground (arith, look i, string_comparable.same_iff id i), same)
      ];
    }

-- A VM and its slot are taken out together.
pub Owns-remove :
    (f g : Backend) (id : String) (info : VmInfo)
    → Owns f
    → lookup id f.vms ≡ some info
    → g.vms ≡ remove id f.vms
    → ((k : ℕ)
        → is_allocated g.net_pool.allocated k
          ≡ (if info.slot.id == k then false else is_allocated f.net_pool.allocated k))
    → Owns g
Owns-remove f g id info o there vms pool =
    let look = λ (j : String). ap (lookup j) vms ∙ lookup-remove id j f.vms in
    record {
      distinct = λ i j a b p q e. ground (arith, look i, look j, o.distinct i j a b);
      held = λ i a p. ground (
        arith,
        look i,
        o.held i a,
        pool a.slot.id,
        nat_beq_iff info.slot.id a.slot.id,
        o.distinct id i info a,
        string_comparable.same_iff id i,
      );
      owned = λ k p.
          let (i, a, found, same) = o.owned k (ground (arith, pool k)) in
          (
            i,
            a,
            ground (
              arith,
              look i,
              string_comparable.same_iff id i,
              pool k,
              nat_beq_iff info.slot.id k,
            ),
            same,
          );
    }

-- A VM is written back with the same slot.
pub Owns-update :
    (f : Backend) (id : String) (info info' : VmInfo)
    → Owns f
    → lookup id f.vms ≡ some info
    → info'.slot ≡ info.slot
    → Owns (record f { vms = insert id info' f.vms })
Owns-update f id info info' o there same =
    let look = λ (j : String). lookup-insert id j info' f.vms in
    let slot = ap (λ (s : Slot). s.id) same in
    record {
      distinct = λ i j a b p q e. ground (
        arith,
        look i,
        look j,
        slot,
        string_comparable.same_iff id i,
        string_comparable.same_iff id j,
        o.distinct i j a b,
        o.distinct id j info b,
        o.distinct i id a info,
      );
      held = λ i a p. ground (arith, look i, slot, o.held i a, o.held id info);
      owned = λ k p.
          let (i, a, found, at_k) = o.owned k p in
          elim (Bool-cases (id == i)) [
            | inl here ↦ (
              id,
              info',
              ground (arith, look id, ==_refl id),
              ground (arith, slot, string_comparable.same_iff id i),
            )
            | inr other ↦ (i, a, ground (arith, look i), at_k)
          ];
    }
