-- ===== src/Orchestrator/Backing.antt =====
-- The orchestrator of orchestrator/orchestrator.go and the sandboxes that its backend runs: what a
-- backend has to keep to, and what follows for the two tables.
pub mod Calls
use gitvm.Base.{
  ◌≡◌, refl, ◌∙◌, String, Bool, true, false, none, some, List, [], ◌∷◌, Result, ok, err, ℤ, arith,
  Bool-cases, Option-cases, inl, inr, if◌then◌else◌, ◌==◌, string_comparable, leb,
}
use gitvm.Base.Clock.{Time}
use gitvm.Base.Table.{Table, lookup, lookup-insert, lookup-remove}
use gitvm.Runtime.{State, running, paused, is_running, is_paused, CreateOpts, Sandbox, Runtime}
use gitvm.Orchestrator.Store.{VmInstance, get, put, delete, list, expired, count}
use gitvm.Orchestrator.Calls.{
  Config, CreateRequest, Orchestrator, sandbox_id, create_opts, new_instance, restored_instance,
  init_with, finish_create, create, delete_vm, set_state, pause, resume, snapshot, finish_restore,
  restore, delete_each, cleanup_expired, shutdown,
}
use gitvm.Orchestrator.Valid.{IsValid}
use gitvm.Orchestrator.Valid.Calls.{
  Call, creates, deletes, pauses, resumes, snapshots, restores, cleans, shuts_down, step,
}

-- Whether the store has the sandbox.
abbrev pub is_stored : String → Orchestrator → Bool
is_stored j o = elim (get j o.store) [ none ↦ false | some _ ↦ true ]

abbrev pub or_had : {E A : Type 0} → Result E A → Bool → Bool → Bool
or_had (ok _) new had = if new then true else had
or_had (err _) new had = had

-- What `has j w` says of the calls of a backend: whether sandbox `j` runs in its state `w`. A call that
-- starts a sandbox does so when it succeeds and leaves nothing behind when it fails; `Destroy` ends
-- just its sandbox, whatever it returns; the other calls start and end none.
pub record IsTracking {E W : Type 0} (rt : Runtime E W)
    (init_agent : String → Table String String → W → W) (has : String → W → Bool) : Type 0 where
  pub creates_one :
      (opts : CreateOpts) (w : W) (j : String)
      → has j (rt.create opts w).1 ≡ or_had (rt.create opts w).0 (opts.id == j) (has j w)
  pub restores_one :
      (snapshot_id id : String) (w : W) (j : String)
      → has j (rt.restore snapshot_id id w).1
        ≡ or_had (rt.restore snapshot_id id w).0 (id == j) (has j w)
  pub destroys_one :
      (id : String) (w : W) (j : String)
      → has j (rt.destroy id w).1 ≡ (if id == j then false else has j w)
  pub pause_keeps : (id : String) (w : W) (j : String) → has j (rt.pause id w).1 ≡ has j w
  pub resume_keeps : (id : String) (w : W) (j : String) → has j (rt.resume id w).1 ≡ has j w
  pub snapshot_keeps :
      (id snapshot_id : String) (w : W) (j : String)
      → has j (rt.snapshot id snapshot_id w).1 ≡ has j w
  pub init_keeps :
      (url : String) (vars : Table String String) (w : W) (j : String)
      → has j (init_agent url vars w) ≡ has j w

module _ {E W : Type 0} (rt : Runtime E W) (init_agent : String → Table String String → W → W)
    (has : String → W → Bool) (t : IsTracking rt init_agent has) where
  -- The sandboxes of the store are those that the backend runs.
  abbrev pub InSync : Orchestrator → W → Type 0
  InSync o w = (j : String) → has j w ≡ is_stored j o

  put-is_stored :
      (vm : VmInstance) (o : Orchestrator) (j : String)
      → is_stored j (record o { store = put vm o.store })
        ≡ (if vm.id == j then true else is_stored j o)
  unfolding get put
  put-is_stored vm o j = ground (arith, lookup-insert vm.id j vm o.store)

  delete-is_stored :
      (id : String) (o : Orchestrator) (j : String)
      → is_stored j (record o { store = delete id o.store })
        ≡ (if id == j then false else is_stored j o)
  unfolding get delete
  delete-is_stored id o j = ground (arith, lookup-remove id j o.store)

  init_with-has :
      (url : String) (vars : Table String String) (w : W) (j : String)
      → has j (init_with rt init_agent url vars w) ≡ has j w
  unfolding init_with
  init_with-has url [] w j = refl
  init_with-has url (v ∷ vs) w j = t.init_keeps url (v ∷ vs) w j

  pub finish_create-InSync :
      (o : Orchestrator) (req : CreateRequest) (id : String) (now : Time) (w : W)
      (r : Result E Sandbox × W)
      → InSync o w
      → ((j : String) → has j r.1 ≡ or_had r.0 (id == j) (has j w))
      → InSync
          (finish_create rt init_agent o req id now r).1
          (finish_create rt init_agent o req id now r).2
  unfolding finish_create new_instance
  finish_create-InSync o req id now w (err e, w') s h j = h j ∙ s j
  finish_create-InSync o req id now w (ok sb, w') s h j = ground (
    arith,
    h j,
    s j,
    init_with-has sb.agent_url req.env_vars w' j,
    put-is_stored (new_instance o.config rt.name id req sb now) o j,
  )

  pub finish_restore-InSync :
      (o : Orchestrator) (snapshot_id id : String) (timeout : ℤ) (now : Time) (w : W)
      (r : Result E Sandbox × W)
      → InSync o w
      → ((j : String) → has j r.1 ≡ or_had r.0 (id == j) (has j w))
      → InSync
          (finish_restore rt init_agent o snapshot_id id timeout now r).1
          (finish_restore rt init_agent o snapshot_id id timeout now r).2
  unfolding finish_restore restored_instance
  finish_restore-InSync o snapshot_id id timeout now w (err e, w') s h j = h j ∙ s j
  finish_restore-InSync o snapshot_id id timeout now w (ok sb, w') s h j = ground (
    arith,
    h j,
    s j,
    put-is_stored (restored_instance o.config rt.name id snapshot_id timeout sb now) o j,
  )

  pub delete_vm-InSync :
      (o : Orchestrator) (id : String) (w : W)
      → InSync o w
      → InSync (delete_vm rt init_agent o id w).1 (delete_vm rt init_agent o id w).2
  unfolding delete_vm
  delete_vm-InSync o id w s j = elim (Option-cases (get id o.store)) [
    | inl missing ↦ rw (missing, delete_vm) (s j)
    | inr (vm, found) ↦
        rw (found, delete_vm) (ground (arith, t.destroys_one id w j, s j, delete-is_stored id o j))
  ]

  pub delete_each-InSync :
      (vms : List VmInstance) (o : Orchestrator) (w : W)
      → InSync o w
      → InSync (delete_each rt init_agent vms o w).0 (delete_each rt init_agent vms o w).1
  unfolding delete_each
  delete_each-InSync [] o w s = s
  delete_each-InSync (vm ∷ vms) o w s =
      let (_, o', w') = delete_vm rt init_agent o vm.id w in
      delete_each-InSync vms o' w' (delete_vm-InSync o vm.id w s)

  -- A state is only written to a sandbox that is in the store under its own id.
  pub set_state-InSync :
      (o : Orchestrator) (vm : VmInstance) (s' : State) (w : W) (r : Result E (Unit {0}) × W)
      → InSync o w
      → is_stored vm.id o ≡ true
      → ((j : String) → has j r.1 ≡ has j w)
      → InSync (set_state rt init_agent o vm s' r).1 (set_state rt init_agent o vm s' r).2
  unfolding set_state
  set_state-InSync o vm s' w (err e, w') s there h j = h j ∙ s j
  set_state-InSync o vm s' w (ok _, w') s there h j = ground (
    arith,
    h j,
    s j,
    there,
    put-is_stored (record vm { state = s' }) o j,
    string_comparable.same_iff vm.id j,
  )
