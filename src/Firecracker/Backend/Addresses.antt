-- ===== src/Firecracker/Backend/Addresses.antt =====
-- The addresses of the microVMs of one backend: runtime/firecracker/firecracker.go over
-- network/types.go and network/pool.go.
use gitvm.Base.{
  ℕ, ◌≤◌, ◌<◌, ◌≡◌, ◌≢◌, sym, ◌∙◌, ap, subst, String, Bool, none, some, Result, ok, err, inl, inr,
  arith, Bool-cases, Option-cases, string_comparable, ℤ, positive_or, pos,
}
use gitvm.Base.Effects.{Trace}
use gitvm.Base.Table.{Table, lookup, Every, Every-insert, Every-remove}
use gitvm.Network.Slot.{Slot, new_slot}
use gitvm.Network.Slot.Addresses.{new_slot_distinct}
use gitvm.Network.Host as Host
use gitvm.Network.Host.{Command}
use gitvm.Network.Pool.{Pool, AllocateError, new_pool, release}
use gitvm.Network.Pool.Allocation.{IsAllocation, allocate-IsAllocation}
use gitvm.Template.{Cache, exists}
use gitvm.Runtime.{State, CreateOpts, Sandbox}
use gitvm.Firecracker.Vm.{Action}
use gitvm.Firecracker.Backend.{
  Config, VmInfo, Backend, World, Outcome, template_or_base, release_slot, after_allocate, create,
  destroy, set_state, new_backend,
}
use gitvm.Firecracker.Backend.SlotTable.{Owns}
use gitvm.Firecracker.Backend.Ownership.{
  IsBoot, boot_in_slot-IsBoot, create-Owns, destroy-Owns, set_state-Owns, new_backend-Owns,
}

-- The slot of a VM is the one that `NewSlot` makes of a number below the limit.
abbrev HasSlot : ℕ → String → VmInfo → Type 0
HasSlot limit id info = (info.slot ≡ new_slot info.slot.id) × (info.slot.id < limit)

record IsAddressed (limit : ℕ) (f : Backend) : Type 0 where
  max : f.net_pool.max_slots ≡ limit
  slots : Every (HasSlot limit) f.vms

subst-Every :
    (limit : ℕ) (m n : Table String VmInfo)
    → n ≡ m
    → Every (HasSlot limit) m
    → Every (HasSlot limit) n
subst-Every limit m n e h = subst (Every (HasSlot limit)) (sym e) h

boot-IsAddressed :
    (limit : ℕ) (opts : CreateOpts) (slot : Slot) (g : Backend) (r : Outcome Sandbox)
    → IsAddressed limit g
    → slot ≡ new_slot slot.id
    → slot.id < limit
    → IsBoot opts slot g r
    → IsAddressed limit r.1.0
boot-IsAddressed limit opts slot g (err e, (h, w)) v made lt (vms, _, max) = record {
  max = max ∙ v.max;
  slots = subst-Every limit g.vms h.vms vms v.slots;
}
boot-IsAddressed limit opts slot g (ok sb, (h, w)) v made lt (info, same, vms, pool) = record {
  max = ap (λ (q : Pool). q.max_slots) pool ∙ v.max;
  slots = subst-Every limit _ h.vms vms (
      Every-insert (HasSlot limit) opts.id info g.vms
        (subst (λ (s : Slot). (s ≡ new_slot s.id) × (s.id < limit)) (sym same) (made, lt)) v.slots);
}

limit_lem : (n : ℤ) → positive_or 255 (pos (positive_or 50 n)) ≡ positive_or 50 n
limit_lem n = ground arith

module _ (runs : Host.Trace → Command → Bool) (succeeds : Trace Action → Action → Bool) where
  after_allocate-IsAddressed :
      (limit : ℕ) (opts : CreateOpts) (uuid : String) (f : Backend) (h : Trace Action)
      (r : Result AllocateError Slot × Pool × Host.Trace)
      → IsAddressed limit f
      → IsAllocation f.net_pool r
      → IsAddressed limit (after_allocate runs succeeds opts uuid f h r).1.0
  unfolding after_allocate
  after_allocate-IsAddressed limit opts uuid f h (err e, pool, net) v same = record {
    max = ap (λ (q : Pool). q.max_slots) same ∙ v.max;
    slots = v.slots;
  }
  after_allocate-IsAddressed limit opts uuid f h (ok slot, pool, net) v (made, lt, _, _, taken) =
      let g = record f { net_pool = pool } in
      let w : World = record { net = net; host = h } in
      boot-IsAddressed limit opts slot g _
        (record { max = ap (λ (q : Pool). q.max_slots) taken ∙ v.max; slots = v.slots }) made
        (subst (λ (n : ℕ). slot.id < n) v.max lt)
        (boot_in_slot-IsBoot runs succeeds opts uuid slot g w)

  create-IsAddressed :
      (limit : ℕ) (opts : CreateOpts) (uuid : String) (f : Backend) (w : World)
      → IsAddressed limit f
      → IsAddressed limit (create runs succeeds opts uuid f w).1.0
  unfolding create
  create-IsAddressed limit opts uuid f w v =
      elim (Bool-cases (exists succeeds f.tmpl_cache (template_or_base opts.template) w.host).0) [
        | inl there ↦
            rw (there, create)
              (after_allocate-IsAddressed limit opts uuid f _ _ v
                (allocate-IsAllocation runs f.net_pool w.net))
        | inr missing ↦ rw (missing, create) v
      ]

  destroy-IsAddressed :
      (limit : ℕ) (id : String) (f : Backend) (w : World)
      → IsAddressed limit f
      → IsAddressed limit (destroy runs succeeds id f w).1.0
  unfolding destroy release_slot release
  destroy-IsAddressed limit id f w v = elim (Option-cases (lookup id f.vms)) [
    | inl missing ↦ rw (missing, destroy) v
    | inr (info, there) ↦
        rw (there, destroy)
          (record { max = v.max; slots = Every-remove (HasSlot limit) id f.vms v.slots })
  ]

  set_state-IsAddressed :
      (limit : ℕ) (id : String) (s : State) (f : Backend) (w : World)
      → IsAddressed limit f
      → IsAddressed limit (set_state runs succeeds id s f w).1.0
  unfolding set_state
  set_state-IsAddressed limit id s f w v = elim (Option-cases (lookup id f.vms)) [
    | inl missing ↦ rw (missing, set_state) v
    | inr (info, there) ↦
        rw (there, set_state)
          (record {
            max = v.max;
            slots = Every-insert (HasSlot limit) id _ f.vms (v.slots id info there) v.slots;
          })
  ]

  -- The states that a backend can reach by its calls, `Create` under ids that are not in use.
  pub data Reach (c : Config) (cache : Cache) : Backend → Type 0 where
    fresh : Reach c cache (new_backend c cache)
    creates :
        {f : Backend} (opts : CreateOpts) (uuid : String) (w : World)
        → Reach c cache f
        → lookup opts.id f.vms ≡ none
        → Reach c cache (create runs succeeds opts uuid f w).1.0
    destroys :
        {f : Backend} (id : String) (w : World)
        → Reach c cache f
        → Reach c cache (destroy runs succeeds id f w).1.0
    sets :
        {f : Backend} (id : String) (s : State) (w : World)
        → Reach c cache f
        → Reach c cache (set_state runs succeeds id s f w).1.0

  -- In every state that a Firecracker backend can reach by Create under unused ids, Destroy, Pause
  -- and Resume, the pool has allocated exactly the slots of the VMs in the table, and no two VMs
  -- share one.
  pub Reach-Owns : {c : Config} {cache : Cache} {f : Backend} → Reach c cache f → Owns f
  Reach-Owns {c} {cache} fresh = new_backend-Owns c cache
  Reach-Owns (creates opts uuid w r unused) =
      create-Owns runs succeeds opts uuid _ w (Reach-Owns r) unused
  Reach-Owns (destroys id w r) = destroy-Owns runs succeeds id _ w (Reach-Owns r)
  Reach-Owns (sets id s w r) = set_state-Owns runs succeeds id s _ w (Reach-Owns r)

  Reach-IsAddressed :
      {c : Config} {cache : Cache} {f : Backend}
      → Reach c cache f
      → IsAddressed (positive_or 50 c.max_vms) f
  unfolding new_backend new_pool lookup
  Reach-IsAddressed {c} fresh = record { max = limit_lem c.max_vms; slots = λ k v e. cc }
  Reach-IsAddressed {c} (creates opts uuid w r unused) =
      create-IsAddressed (positive_or 50 c.max_vms) opts uuid _ w (Reach-IsAddressed r)
  Reach-IsAddressed {c} (destroys id w r) =
      destroy-IsAddressed (positive_or 50 c.max_vms) id _ w (Reach-IsAddressed r)
  Reach-IsAddressed {c} (sets id s w r) =
      set_state-IsAddressed (positive_or 50 c.max_vms) id s _ w (Reach-IsAddressed r)

  -- In a reachable Firecracker backend whose limit on VMs is at most 16384, two VMs that live at
  -- the same time have different guest, host and MAC addresses.
  pub Reach-distinct_addresses :
      {c : Config} {cache : Cache} {f : Backend} (i j : String) (a b : VmInfo)
      → Reach c cache f
      → positive_or 50 c.max_vms ≤ 16384
      → lookup i f.vms ≡ some a
      → lookup j f.vms ≡ some b
      → i ≢ j
      → (a.slot.guest_ip ≢ b.slot.guest_ip)
        × (a.slot.host_ip ≢ b.slot.host_ip)
        × (a.slot.guest_mac ≢ b.slot.guest_mac)
  Reach-distinct_addresses {c} i j a b r small p q apart =
      let v = Reach-IsAddressed r in
      let (made, lt) = v.slots i a p in
      let (made', lt') = v.slots j b q in
      let (guest, host, mac) =
        new_slot_distinct a.slot.id b.slot.id (omega arith) (omega arith)
          (λ e. apart ((Reach-Owns r).distinct i j a b p q e)) in
      rw (made, made') (guest, host, mac)
