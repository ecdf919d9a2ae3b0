-- ===== src/Docker/Agreement.antt =====
-- orchestrator/orchestrator.go over runtime/docker/docker.go: the state that the store gives to a
-- sandbox, and the status of its container.
pub mod Calls
use gitvm.Base.{
  ◌≡◌, refl, ◌∙◌, String, Bool, false, Option, none, some, List, [], ◌∷◌, Result, ok, err, ℤ, arith,
  inl, inr, leb, Bool-cases, Option-cases, if◌then◌else◌, ◌==◌, string_comparable,
}
use gitvm.Base.Clock.{Time}
use gitvm.Base.Table.{Table, lookup, lookup-insert, lookup-remove}
use gitvm.Runtime.{State, running, paused, is_running, is_paused, Sandbox}
use gitvm.Orchestrator.Store.{VmInstance, get, put, delete, list, expired, count}
use gitvm.Orchestrator.Calls.{
  Config, CreateRequest, Orchestrator, sandbox_id, create_opts, new_instance, restored_instance,
  init_with, finish_create, create, delete_vm, set_state, pause, resume, snapshot, finish_restore,
  restore, delete_each, cleanup_expired, shutdown,
}
use gitvm.Orchestrator.Valid.{IsValid}
use gitvm.Orchestrator.Valid.Calls.{
  Call, creates, deletes, pauses, resumes, snapshots, restores, cleans, shuts_down, step,
}
use gitvm.Docker.Commands.{DockerConfig, container}
use gitvm.Docker.Backend as Backend
use gitvm.Docker.Agent.{Reply, DockerError, command_failed}
use gitvm.Docker.Backend.{docker_runtime, run}
use gitvm.Docker.Daemon.{IsDaemon, IsUp, is, is_some}
use gitvm.Docker.Containers.{
  container_inj, IsRun, create-IsRun, restore-IsRun, destroy-status, snapshot-status,
}

-- The status of a container whose sandbox is in the state.
abbrev pub status_of : State → String
status_of running = "running"
status_of paused = "paused"
status_of _ = ""

abbrev pub shown : Option VmInstance → Option String
shown none = none
shown (some vm) = some (status_of vm.state)

-- The one call that is left out: a snapshot of a sandbox that is paused.
abbrev pub SparesPaused : Call → Orchestrator → Type 0
SparesPaused (snapshots id snapshot_id) o = is "paused" (shown (get id o.store)) ≡ false
SparesPaused _ o = Unit {0}

get-put :
    (vm : VmInstance) (o : Orchestrator) (j : String)
    → get j (put vm o.store) ≡ (if vm.id == j then some vm else get j o.store)
unfolding get put
get-put vm o j = lookup-insert vm.id j vm o.store

get-delete :
    (id : String) (o : Orchestrator) (j : String)
    → get j (delete id o.store) ≡ (if id == j then none else get j o.store)
unfolding get delete
get-delete id o j = lookup-remove id j o.store

pub found_id :
    (config : Config) (o : Orchestrator) (id : String) (vm : VmInstance)
    → IsValid config o
    → get id o.store ≡ some vm
    → vm.id ≡ id
unfolding get lookup
found_id config o id vm v found = (v.entries id vm found).0

-- Each sandbox of the store has a container in its state, and there are no other containers.
abbrev pub Agrees : {W : Type 0} → (String → W → Option String) → Orchestrator → W → Type 0
Agrees status o w = (j : String) → status (container j) w ≡ shown (get j o.store)

module _ {W : Type 0} (docker : List String → W → Reply × W) (healthy : String → W → Bool × W)
    (status : String → W → Option String) (D : IsDaemon docker healthy status)
    (U : IsUp docker status) (d : DockerConfig) (init : String → Table String String → W → W)
    (quiet : (url : String) (vars : Table String String) (w : W) (name : String)
      → status name (init url vars w) ≡ status name w) where
  init_with-status :
      (url : String) (vars : Table String String) (w : W) (name : String)
      → status name (init_with (docker_runtime docker healthy d) init url vars w) ≡ status name w
  unfolding init_with
  init_with-status url [] w name = refl
  init_with-status url (v ∷ vs) w name = quiet url (v ∷ vs) w name

  pub finish_create-Agrees :
      (o : Orchestrator) (req : CreateRequest) (id : String) (now : Time) (w : W)
      (r : Result DockerError Sandbox × W)
      → Agrees status o w
      → IsRun status id w r
      → let s = finish_create (docker_runtime docker healthy d) init o req id now r in
        Agrees status s.1 s.2
  unfolding finish_create new_instance
  finish_create-Agrees o req id now w (err e, w') a same j = same (container j) ∙ a j
  finish_create-Agrees o req id now w (ok sb, w') a (_, _, _, up, others) j = ground (
    arith,
    a j,
    up,
    others (container j),
    container_inj id j,
    string_comparable.same_iff id j,
    init_with-status sb.agent_url req.env_vars w' (container j),
    get-put (new_instance o.config (docker_runtime docker healthy d).name id req sb now) o j,
  )

  pub finish_restore-Agrees :
      (o : Orchestrator) (snapshot_id id : String) (timeout : ℤ) (now : Time) (w : W)
      (r : Result DockerError Sandbox × W)
      → Agrees status o w
      → IsRun status id w r
      → let s =
          finish_restore (docker_runtime docker healthy d) init o snapshot_id id timeout now r in
        Agrees status s.1 s.2
  unfolding finish_restore restored_instance
  finish_restore-Agrees o snapshot_id id timeout now w (err e, w') a same j =
      same (container j) ∙ a j
  finish_restore-Agrees o snapshot_id id timeout now w (ok sb, w') a (_, _, _, up, others) j =
      ground (
        arith,
        a j,
        up,
        others (container j),
        container_inj id j,
        string_comparable.same_iff id j,
        get-put
            (restored_instance o.config (docker_runtime docker healthy d).name id snapshot_id
              timeout sb now)
            o j,
      )

  pub delete_vm-Agrees :
      (o : Orchestrator) (id : String) (w : W)
      → Agrees status o w
      → let s = delete_vm (docker_runtime docker healthy d) init o id w in Agrees status s.1 s.2
  unfolding delete_vm docker_runtime
  delete_vm-Agrees o id w a = elim (Option-cases (get id o.store)) [
    | inl missing ↦ rw (missing, delete_vm) a
    | inr (vm, found) ↦
        rw (found, delete_vm)
          λ j. ground (
            arith,
            a j,
            destroy-status docker healthy status D U d id w (container j),
            container_inj id j,
            get-delete id o j,
          )
  ]

  pub delete_each-Agrees :
      (vms : List VmInstance) (o : Orchestrator) (w : W)
      → Agrees status o w
      → let s = delete_each (docker_runtime docker healthy d) init vms o w in Agrees status s.0 s.1
  unfolding delete_each
  delete_each-Agrees [] o w a = a
  delete_each-Agrees (vm ∷ vms) o w a =
      let (_, o', w') = delete_vm (docker_runtime docker healthy d) init o vm.id w in
      delete_each-Agrees vms o' w' (delete_vm-Agrees o vm.id w a)

  -- What a call that changes the status of one container leaves.
  abbrev pub Turned : String → State → W → Result DockerError (Unit {0}) × W → Type 0
  Turned id s w (ok _, w') =
      (name : String)
      → status name w' ≡ (if container id == name then some (status_of s) else status name w)
  Turned id s w (err e, w') = (name : String) → status name w' ≡ status name w

  pub set_state-Agrees :
      (o : Orchestrator) (id : String) (vm : VmInstance) (s : State) (w : W)
      (r : Result DockerError (Unit {0}) × W)
      → Agrees status o w
      → vm.id ≡ id
      → Turned id s w r
      → let t = set_state (docker_runtime docker healthy d) init o vm s r in Agrees status t.1 t.2
  unfolding set_state
  set_state-Agrees o id vm s w (err e, w') a same turned j = turned (container j) ∙ a j
  set_state-Agrees o id vm s w (ok _, w') a same turned j =
      ground (
        arith,
        a j,
        turned (container j),
        container_inj id j,
        get-put (record vm { state = s }) o j,
      )
