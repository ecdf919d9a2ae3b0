-- ===== src/Firecracker/Backend/Ownership.antt =====
-- Create, Destroy, Pause and Resume of runtime/firecracker/firecracker.go, and the ownership of slots.
use gitvm.Base.{
  ◌≡◌, refl, ◌∙◌, ap, String, Bool, true, false, none, Result, ok, err, inl, inr, arith, Bool-cases,
  Option-cases, string_comparable, nat_comparable, nat_beq_iff,
}
use gitvm.Base.Effects.{Trace, poll}
use gitvm.Base.Table.{lookup, insert, remove}
use gitvm.Network.Slot.{Slot}
use gitvm.Network.Host as Host
use gitvm.Network.Host.{Command}
use gitvm.Network.Pool.{Pool, AllocateError, new_pool, is_allocated, release}
use gitvm.Network.Pool.Allocation.{
  IsAllocation, allocate-IsAllocation, allocated-insert, allocated-remove,
}
use gitvm.Template.{Cache, kernel_path, template_path, exists}
use gitvm.Runtime.{State, CreateOpts, Sandbox}
use gitvm.Firecracker.Vm.{Vm, Action, VmError, get_health, new_vm, start, stop}
use gitvm.Firecracker.Backend.{
  Config, new_backend, VmInfo, Backend, World, FcError, agent_not_ready, Outcome, template_or_base,
  agent_url_of, vm_config, finish_boot, release_slot, boot_in_slot, after_allocate, create, destroy,
  set_state,
}
use gitvm.Firecracker.Backend.SlotTable.{Owns, Owns-same, Owns-insert, Owns-remove, Owns-update}

-- A new backend has no VMs and no slots.
pub new_backend-Owns : (c : Config) (cache : Cache) → Owns (new_backend c cache)
unfolding new_backend new_pool lookup is_allocated
new_backend-Owns c cache = record {
  distinct = λ i j a b p q e. cc;
  held = λ i a p. cc;
  owned = λ k p. cc;
}

-- What `Create` does once it has a slot: the VM is entered, or the slot is given back.
abbrev pub IsBoot : CreateOpts → Slot → Backend → Outcome Sandbox → Type 0
IsBoot opts slot f (err e, (g, w)) =
    (g.vms ≡ f.vms)
    × (g.net_pool.allocated ≡ remove slot.id f.net_pool.allocated)
    × (g.net_pool.max_slots ≡ f.net_pool.max_slots)
IsBoot opts slot f (ok sb, (g, w)) =
    (info : VmInfo) × (info.slot ≡ slot)
    × (g.vms ≡ insert opts.id info f.vms)
    × (g.net_pool ≡ f.net_pool)

module _ (runs : Host.Trace → Command → Bool) (succeeds : Trace Action → Action → Bool) where
  finish_boot-IsBoot :
      (opts : CreateOpts) (slot : Slot) (f : Backend) (w : World) (vm : Vm)
      (started : Result VmError (Unit {0}) × Trace Action)
      (healthy : Result FcError (Unit {0}) × Trace Action) (h : Trace Action)
      → IsBoot opts slot f (finish_boot runs succeeds opts slot f w vm started healthy h)
  unfolding finish_boot release
  finish_boot-IsBoot opts slot f w vm (err e, h₂) healthy h = (refl, refl, refl)
  finish_boot-IsBoot opts slot f w vm (ok _, h₂) (err e, h₃) h = (refl, refl, refl)
  finish_boot-IsBoot opts slot f w vm (ok _, h₂) (ok _, h₃) h = (_, refl, refl, refl)

  pub boot_in_slot-IsBoot :
      (opts : CreateOpts) (uuid : String) (slot : Slot) (f : Backend) (w : World)
      → IsBoot opts slot f (boot_in_slot runs succeeds opts uuid slot f w)
  unfolding boot_in_slot
  boot_in_slot-IsBoot opts uuid slot f w =
      let name = template_or_base opts.template in
      let (kernel, h₁) = kernel_path succeeds f.tmpl_cache name w.host in
      let config = vm_config f.config opts slot kernel (template_path f.tmpl_cache name) uuid in
      let (started, vm, h₂) = start succeeds (new_vm config) h₁ in
      let url = agent_url_of slot in
      let waited = poll succeeds 60 (get_health url) (agent_not_ready url) h₂ in
      finish_boot-IsBoot opts slot f w vm (started, h₂) waited (stop succeeds vm waited.1).1

  -- Giving back a slot that was free before it was taken leaves every slot as it was.
  boot-Owns :
      (opts : CreateOpts) (slot : Slot) (f g : Backend) (r : Outcome Sandbox)
      → Owns f
      → lookup opts.id f.vms ≡ none
      → is_allocated f.net_pool.allocated slot.id ≡ false
      → g.vms ≡ f.vms
      → g.net_pool.allocated ≡ insert slot.id true f.net_pool.allocated
      → IsBoot opts slot g r
      → Owns r.1.0
  boot-Owns opts slot f g (err e, (h, w)) o fresh free vms pool (vms', pool', _) =
      Owns-same f h
        (
          vms' ∙ vms,
          λ k. ground (
            arith,
            ap (λ m. is_allocated m k) pool',
            ap (λ m. is_allocated (remove slot.id m) k) pool,
            allocated-remove (insert slot.id true f.net_pool.allocated) slot.id k,
            allocated-insert f.net_pool.allocated slot.id k,
            nat_beq_iff slot.id k,
          ),
        )
        o
  boot-Owns opts slot f g (ok sb, (h, w)) o fresh free vms pool (info, same, vms', pool') =
      Owns-insert f h opts.id info o fresh (ground (arith, ap (λ (s : Slot). s.id) same))
        (vms' ∙ ap (insert opts.id info) vms)
        (λ k. ground (
          arith,
          ap (λ (s : Slot). s.id) same,
          ap (λ (q : Pool). is_allocated q.allocated k) pool',
          ap (λ m. is_allocated m k) pool,
          allocated-insert f.net_pool.allocated slot.id k,
        ))

  after_allocate-Owns :
      (opts : CreateOpts) (uuid : String) (f : Backend) (h : Trace Action)
      (r : Result AllocateError Slot × Pool × Host.Trace)
      → Owns f
      → lookup opts.id f.vms ≡ none
      → IsAllocation f.net_pool r
      → Owns (after_allocate runs succeeds opts uuid f h r).1.0
  unfolding after_allocate
  after_allocate-Owns opts uuid f h (err e, pool, net) o fresh same =
      Owns-same f (record f { net_pool = pool })
        (refl, λ k. ap (λ (q : Pool). is_allocated q.allocated k) same) o
  after_allocate-Owns opts uuid f h (ok slot, pool, net) o fresh (_, _, free, _, taken) =
      let g = record f { net_pool = pool } in
      let w : World = record { net = net; host = h } in
      boot-Owns opts slot f g _ o fresh free refl (ap (λ (q : Pool). q.allocated) taken)
        (boot_in_slot-IsBoot opts uuid slot g w)

  -- `Create` under an id that is not in use keeps the ownership of the slots, whichever of its steps
  -- fails: a slot that was taken for a VM that does not come up is given back.
  pub create-Owns :
      (opts : CreateOpts) (uuid : String) (f : Backend) (w : World)
      → Owns f
      → lookup opts.id f.vms ≡ none
      → Owns (create runs succeeds opts uuid f w).1.0
  unfolding create
  create-Owns opts uuid f w o fresh =
      elim (Bool-cases (exists succeeds f.tmpl_cache (template_or_base opts.template) w.host).0) [
        | inl there ↦
            rw (there, create)
              (after_allocate-Owns opts uuid f _ _ o fresh
                (allocate-IsAllocation runs f.net_pool w.net))
        | inr missing ↦ rw (missing, create) o
      ]

  -- `Destroy` gives back the slot of the VM that it removes, and touches no other.
  pub destroy-Owns :
      (id : String) (f : Backend) (w : World) → Owns f → Owns (destroy runs succeeds id f w).1.0
  unfolding destroy release_slot release
  destroy-Owns id f w o = elim (Option-cases (lookup id f.vms)) [
    | inl missing ↦ rw (missing, destroy) o
    | inr (info, there) ↦
        rw (there, destroy)
          (Owns-remove f _ id info o there refl
            (λ k. allocated-remove f.net_pool.allocated info.slot.id k))
  ]

  -- `Pause` and `Resume` write a state and leave the slots alone.
  pub set_state-Owns :
      (id : String) (s : State) (f : Backend) (w : World)
      → Owns f
      → Owns (set_state runs succeeds id s f w).1.0
  unfolding set_state
  set_state-Owns id s f w o = elim (Option-cases (lookup id f.vms)) [
    | inl missing ↦ rw (missing, set_state) o
    | inr (info, there) ↦
        rw (there, set_state)
          (Owns-update f id info (record info { sb = record info.sb { state = s } }) o there refl)
  ]
