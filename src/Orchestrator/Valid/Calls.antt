-- ===== src/Orchestrator/Valid/Calls.antt =====
-- The calls of orchestrator/orchestrator.go and orchestrator/cleanup.go, and well-formedness.
use gitvm.Base.{
  ◌≡◌, ◌⊎◌, inl, inr, refl, String, false, some, List, [], ◌∷◌, Result, ok, err, ℤ, arith,
  Bool-cases, Option-cases, after, leb,
}
use gitvm.Base.Clock.{Time}
use gitvm.Base.Table.{Table}
use gitvm.Runtime.{State, running, paused, is_running, is_paused, Runtime, Sandbox}
use gitvm.Orchestrator.Store.{VmInstance, get, count}
use gitvm.Orchestrator.Calls.{
  Config, CreateRequest, Orchestrator, new_instance, restored_instance, finish_create, create,
  delete_vm, set_state, pause, resume, snapshot, finish_restore, restore, delete_each,
  cleanup_expired, shutdown,
}
use gitvm.Orchestrator.Valid.{IsValid, put-IsValid, update-IsValid, remove-IsValid}

-- The calls on an orchestrator. The random part of a new id and the time are chosen outside.
pub data Call : Type 0 where
  creates : CreateRequest → String → Time → Call
  deletes pauses resumes : String → Call
  snapshots : String → String → Call
  restores : String → ℤ → String → Time → Call
  cleans : Time → Call
  shuts_down : Call

module _ {E W : Type 0} (rt : Runtime E W) (init_agent : String → Table String String → W → W) where
  -- One call, its result dropped.
  unfoldable pub step : Call → Orchestrator → W → Orchestrator × W
  step (creates req uuid now) o w = after (create rt init_agent o req uuid now w)
  step (deletes id) o w = after (delete_vm rt init_agent o id w)
  step (pauses id) o w = after (pause rt init_agent o id w)
  step (resumes id) o w = after (resume rt init_agent o id w)
  step (snapshots id snapshot_id) o w = after (snapshot rt init_agent o id snapshot_id w)
  step (restores snapshot_id timeout uuid now) o w =
      after (restore rt init_agent o snapshot_id timeout uuid now w)
  step (cleans now) o w = cleanup_expired rt init_agent now o w
  step shuts_down o w = shutdown rt init_agent o w

  module _ (config : Config) where
    finish_create-IsValid :
        (o : Orchestrator) (req : CreateRequest) (id : String) (now : Time)
        (r : Result E Sandbox × W)
        → IsValid config o
        → leb o.config.max_vms (count o.store) ≡ false
        → IsValid config (finish_create rt init_agent o req id now r).1
    unfolding finish_create new_instance count
    finish_create-IsValid o req id now (err e, w) v room = v
    finish_create-IsValid o req id now (ok sb, w) v room =
        put-IsValid config o (new_instance o.config rt.name id req sb now) v (refl, inl refl)
          (ground (arith, v.same_config))

    pub create-IsValid :
        (o : Orchestrator) (req : CreateRequest) (uuid : String) (now : Time) (w : W)
        → IsValid config o
        → IsValid config (create rt init_agent o req uuid now w).1
    unfolding create
    create-IsValid o req uuid now w v = elim (Bool-cases (leb o.config.max_vms (count o.store))) [
      | inl full ↦ rw (full, create) v
      | inr room ↦ rw (room, create) (finish_create-IsValid o req _ now _ v room)
    ]

    finish_restore-IsValid :
        (o : Orchestrator) (snapshot_id id : String) (timeout : ℤ) (now : Time)
        (r : Result E Sandbox × W)
        → IsValid config o
        → leb o.config.max_vms (count o.store) ≡ false
        → IsValid config (finish_restore rt init_agent o snapshot_id id timeout now r).1
    unfolding finish_restore restored_instance count
    finish_restore-IsValid o snapshot_id id timeout now (err e, w) v room = v
    finish_restore-IsValid o snapshot_id id timeout now (ok sb, w) v room =
        put-IsValid config o (restored_instance o.config rt.name id snapshot_id timeout sb now) v
          (refl, inl refl) (ground (arith, v.same_config))

    pub restore-IsValid :
        (o : Orchestrator) (snapshot_id : String) (timeout : ℤ) (uuid : String) (now : Time) (w : W)
        → IsValid config o
        → IsValid config (restore rt init_agent o snapshot_id timeout uuid now w).1
    unfolding restore
    restore-IsValid o snapshot_id timeout uuid now w v =
        elim (Bool-cases (leb o.config.max_vms (count o.store))) [
          | inl full ↦ rw (full, restore) v
          | inr room ↦
              rw (room, restore) (finish_restore-IsValid o snapshot_id _ timeout now _ v room)
        ]

    pub delete_vm-IsValid :
        (o : Orchestrator) (id : String) (w : W)
        → IsValid config o
        → IsValid config (delete_vm rt init_agent o id w).1
    unfolding delete_vm
    delete_vm-IsValid o id w v = elim (Option-cases (get id o.store)) [
      | inl missing ↦ rw (missing, delete_vm) v
      | inr (vm, found) ↦ rw (found, delete_vm) (remove-IsValid config o id v)
    ]

    set_state-IsValid :
        (o : Orchestrator) (id : String) (vm : VmInstance) (s : State) (r : Result E (Unit {0}) × W)
        → IsValid config o
        → get id o.store ≡ some vm
        → (s ≡ running) ⊎ (s ≡ paused)
        → IsValid config (set_state rt init_agent o vm s r).1
    unfolding set_state
    set_state-IsValid o id vm s (err e, w) v found live = v
    set_state-IsValid o id vm s (ok u, w) v found live =
        update-IsValid config o id vm s v found live

    pub pause-IsValid :
        (o : Orchestrator) (id : String) (w : W)
        → IsValid config o
        → IsValid config (pause rt init_agent o id w).1
    unfolding pause
    pause-IsValid o id w v = elim (Option-cases (get id o.store)) [
      | inl missing ↦ rw (missing, pause) v
      | inr (vm, found) ↦ elim (Bool-cases (is_running vm.state)) [
        | inl live ↦ rw (found, live, pause) (set_state-IsValid o id vm paused _ v found (inr refl))
        | inr other ↦ rw (found, other, pause) v
      ]
    ]

    pub resume-IsValid :
        (o : Orchestrator) (id : String) (w : W)
        → IsValid config o
        → IsValid config (resume rt init_agent o id w).1
    unfolding resume
    resume-IsValid o id w v = elim (Option-cases (get id o.store)) [
      | inl missing ↦ rw (missing, resume) v
      | inr (vm, found) ↦ elim (Bool-cases (is_paused vm.state)) [
        | inl live ↦
            rw (found, live, resume) (set_state-IsValid o id vm running _ v found (inl refl))
        | inr other ↦ rw (found, other, resume) v
      ]
    ]

    -- `Snapshot` never changes the store.
    pub snapshot-store :
        (o : Orchestrator) (id snapshot_id : String) (w : W)
        → (snapshot rt init_agent o id snapshot_id w).1 ≡ o
    unfolding snapshot
    snapshot-store o id snapshot_id w = ground arith

    pub delete_each-IsValid :
        (vms : List VmInstance) (o : Orchestrator) (w : W)
        → IsValid config o
        → IsValid config (delete_each rt init_agent vms o w).0
    unfolding delete_each
    delete_each-IsValid [] o w v = v
    delete_each-IsValid (vm ∷ vms) o w v =
        delete_each-IsValid vms (delete_vm rt init_agent o vm.id w).1
          (delete_vm rt init_agent o vm.id w).2 (delete_vm-IsValid o vm.id w v)
