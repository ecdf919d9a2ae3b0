-- ===== src/Firecracker/Backend/Tracking.antt =====
-- runtime/firecracker/firecracker.go as the backend of an orchestrator: which sandboxes it runs.
use gitvm.Base.{
  ◌≡◌, refl, ◌∙◌, ap, String, Bool, true, false, none, some, Result, ok, err, arith, inl, inr,
  Bool-cases, Option-cases, if◌then◌else◌, ◌==◌, string_comparable,
}
use gitvm.Base.Effects.{Trace}
use gitvm.Base.Table.{Table, lookup, insert, lookup-insert, lookup-remove}
use gitvm.Network.Slot.{Slot}
use gitvm.Network.Host as Host
use gitvm.Network.Host.{Command}
use gitvm.Network.Pool.{Pool, AllocateError}
use gitvm.Template.{exists}
use gitvm.Runtime.{State, CreateOpts, Sandbox}
use gitvm.Orchestrator.Calls.{Config, Orchestrator}
use gitvm.Orchestrator.Valid.{IsValid}
use gitvm.Orchestrator.Valid.Calls.{Call, step}
use gitvm.Orchestrator.Backing.{is_stored, or_had, IsTracking}
use gitvm.Orchestrator.Backing.Calls.{step-InSync}
use gitvm.Firecracker.Vm.{Action}
use gitvm.Firecracker.Backend.{
  VmInfo, Backend, World, Outcome, template_or_base, release_slot, after_allocate, create, destroy,
  set_state, firecracker_runtime,
}
use gitvm.Firecracker.Backend.Ownership.{IsBoot, boot_in_slot-IsBoot}

-- Whether the backend has a VM under the id.
abbrev pub has_vm : String → Backend × World → Bool
has_vm j (f, w) = elim (lookup j f.vms) [ none ↦ false | some _ ↦ true ]

-- A new agent is told over the network, which leaves the backend alone.
abbrev pub over_network :
    (String → Table String String → World → World)
    → String
    → Table String String
    → Backend × World
    → Backend × World
over_network init url vars (f, w) = (f, init url vars w)

has_vm-insert :
    (id j : String) (info : VmInfo) (f g : Backend) (w v : World)
    → g.vms ≡ insert id info f.vms
    → has_vm j (g, v) ≡ (if id == j then true else has_vm j (f, w))
has_vm-insert id j info f g w v e = ground (arith, ap (lookup j) e, lookup-insert id j info f.vms)

has_vm-same :
    (j : String) (f g : Backend) (w v : World) → g.vms ≡ f.vms → has_vm j (g, v) ≡ has_vm j (f, w)
has_vm-same j f g w v e = ground (arith, ap (lookup j) e)

boot-has_vm :
    (opts : CreateOpts) (slot : Slot) (f g : Backend) (w : World) (r : Outcome Sandbox) (j : String)
    → g.vms ≡ f.vms
    → IsBoot opts slot g r
    → has_vm j r.1 ≡ or_had r.0 (opts.id == j) (has_vm j (f, w))
boot-has_vm opts slot f g w (err e, (h, v)) j same (vms, _, _) = has_vm-same j f h w v (vms ∙ same)
boot-has_vm opts slot f g w (ok sb, (h, v)) j same (info, _, vms, _) =
    has_vm-insert opts.id j info f h w v (vms ∙ ap (insert opts.id info) same)

module _ (runs : Host.Trace → Command → Bool) (succeeds : Trace Action → Action → Bool) where
  after_allocate-has_vm :
      (opts : CreateOpts) (uuid : String) (f : Backend) (w : World) (h : Trace Action)
      (r : Result AllocateError Slot × Pool × Host.Trace) (j : String)
      → has_vm j (after_allocate runs succeeds opts uuid f h r).1
        ≡ or_had (after_allocate runs succeeds opts uuid f h r).0 (opts.id == j) (has_vm j (f, w))
  unfolding after_allocate
  after_allocate-has_vm opts uuid f w h (err e, pool, net) j = refl
  after_allocate-has_vm opts uuid f w h (ok slot, pool, net) j =
      let g = record f { net_pool = pool } in
      let v : World = record { net = net; host = h } in
      boot-has_vm opts slot f g w _ j refl (boot_in_slot-IsBoot runs succeeds opts uuid slot g v)

  create-has_vm :
      (opts : CreateOpts) (uuid : String) (f : Backend) (w : World) (j : String)
      → has_vm j (create runs succeeds opts uuid f w).1
        ≡ or_had (create runs succeeds opts uuid f w).0 (opts.id == j) (has_vm j (f, w))
  unfolding create
  create-has_vm opts uuid f w j =
      elim (Bool-cases (exists succeeds f.tmpl_cache (template_or_base opts.template) w.host).0) [
        | inl there ↦ rw (there, create) (after_allocate-has_vm opts uuid f w _ _ j)
        | inr missing ↦ rw (missing, create) refl
      ]

  destroy-has_vm :
      (id : String) (f : Backend) (w : World) (j : String)
      → has_vm j (destroy runs succeeds id f w).1 ≡ (if id == j then false else has_vm j (f, w))
  unfolding destroy release_slot
  destroy-has_vm id f w j = elim (Option-cases (lookup id f.vms)) [
    | inl missing ↦ rw (missing, destroy) (ground (arith, string_comparable.same_iff id j))
    | inr (info, there) ↦ rw (there, destroy) (ground (arith, lookup-remove id j f.vms))
  ]

  set_state-has_vm :
      (id : String) (s : State) (f : Backend) (w : World) (j : String)
      → has_vm j (set_state runs succeeds id s f w).1 ≡ has_vm j (f, w)
  unfolding set_state
  set_state-has_vm id s f w j = elim (Option-cases (lookup id f.vms)) [
    | inl missing ↦ rw (missing, set_state) refl
    | inr (info, there) ↦
        rw (there, set_state)
          (ground (
            arith,
            lookup-insert id j (record info { sb = record info.sb { state = s } }) f.vms,
            string_comparable.same_iff id j,
          ))
  ]

  -- The backend keeps to what an orchestrator expects of it.
  pub firecracker-IsTracking :
      (uuid : String) (init : String → Table String String → World → World)
      → IsTracking (firecracker_runtime runs succeeds uuid) (over_network init) has_vm
  unfolding firecracker_runtime
  firecracker-IsTracking uuid init = record {
    creates_one = λ opts (f, w) j. create-has_vm opts uuid f w j;
    restores_one = λ snapshot_id id w j. refl;
    destroys_one = λ id (f, w) j. destroy-has_vm id f w j;
    pause_keeps = λ id (f, w) j. set_state-has_vm id State.paused f w j;
    resume_keeps = λ id (f, w) j. set_state-has_vm id State.running f w j;
    snapshot_keeps = λ id snapshot_id w j. refl;
    init_keeps = λ url vars w j. refl;
  }

  -- Each call of a well-formed orchestrator over the Firecracker backend, whichever step on the
  -- host fails, keeps the two in step: an id has a sandbox in the store exactly when it has a
  -- microVM in the table of the backend.
  pub firecracker-InSync :
      (uuid : String) (init : String → Table String String → World → World) (config : Config)
      (c : Call) (o : Orchestrator) (f : Backend) (w : World)
      → IsValid config o
      → ((j : String) → has_vm j (f, w) ≡ is_stored j o)
      → (j : String)
      → has_vm j (step (firecracker_runtime runs succeeds uuid) (over_network init) c o (f, w)).1
        ≡ is_stored j
            (step (firecracker_runtime runs succeeds uuid) (over_network init) c o (f, w)).0
  firecracker-InSync uuid init config c o f w v s =
      step-InSync (firecracker_runtime runs succeeds uuid) (over_network init) has_vm
        (firecracker-IsTracking uuid init) config c o (f, w) v s
