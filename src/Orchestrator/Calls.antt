-- ===== src/Orchestrator/Calls.antt =====
-- orchestrator/orchestrator.go and orchestrator/cleanup.go. The runtime, the POST to a new agent
-- (`initAgent`, whose outcome is ignored), the clock and the random part of an id are arguments.
-- A call takes the orchestrator and the state of the world, and returns both with its result.
use gitvm.Base.{
  ℕ, String, none, some, List, [], ◌∷◌, Result, ok, err, ℤ, pos, positive_or, concat, leb,
  if◌then◌else◌, ◌==◌, string_comparable, not, ◌&&◌,
}
use gitvm.Base.Clock.{Time, add_seconds}
use gitvm.Base.Table.{Table}
use gitvm.Runtime.{
  State, running, paused, is_running, is_paused, CreateOpts, Sandbox, SnapshotInfo, Runtime,
}
use gitvm.Orchestrator.Store.{
  VmInstance, VmStore, new_vm_store, put, get, delete, list, expired, count,
}

pub record Config : Type 0 where
  pub max_vms : ℕ
  pub default_timeout_sec : ℕ

pub record CreateRequest : Type 0 where
  pub template : String
  pub vcpus : ℤ
  pub memory_mb : ℤ
  pub timeout : ℤ
  pub metadata : Table String String
  pub env_vars : Table String String

pub record Orchestrator : Type 0 where
  pub config : Config
  pub store : VmStore

pub data OrchError (E : Type 0) : Type 0 where
  max_reached : ℕ → OrchError E
  not_found : String → OrchError E
  not_running not_paused not_live : String → State → OrchError E
  create_failed restore_failed runtime_failed : E → OrchError E

abbrev pub new_orchestrator : Config → Orchestrator
new_orchestrator config = record { config = config; store = new_vm_store }

-- `"sb-" + uuid.New().String()[:8]`
abbrev pub sandbox_id : String → String
sandbox_id uuid = concat "sb-" uuid

abbrev pub or_default : String → String → String
or_default d s = if s == "" then d else s

-- The values of `Create` that replace what the request leaves out.
unfoldable pub create_opts : String → CreateRequest → CreateOpts
create_opts id req = record {
  id = id;
  template = or_default "base" req.template;
  vcpus = pos (positive_or 1 req.vcpus);
  memory_mb = pos (positive_or 512 req.memory_mb);
  env_vars = req.env_vars;
}

-- The instance that `Create` stores.
unfoldable pub new_instance : Config → String → String → CreateRequest → Sandbox → Time → VmInstance
new_instance config runtime_name id req sb now = record {
  id = id;
  state = running;
  runtime = runtime_name;
  template = or_default "base" req.template;
  vcpus = positive_or 1 req.vcpus;
  memory_mb = positive_or 512 req.memory_mb;
  created_at = now;
  expires_at = add_seconds now (positive_or config.default_timeout_sec req.timeout);
  metadata = req.metadata;
  agent_url = sb.agent_url;
  guest_ip = sb.ip;
}

-- The instance that `Restore` stores: the fields that it does not name are zero.
unfoldable pub restored_instance :
    Config → String → String → String → ℤ → Sandbox → Time → VmInstance
restored_instance config runtime_name id snapshot_id timeout sb now = record {
  id = id;
  state = running;
  runtime = runtime_name;
  template = concat "snapshot:" snapshot_id;
  vcpus = 0;
  memory_mb = 0;
  created_at = now;
  expires_at = add_seconds now (positive_or config.default_timeout_sec timeout);
  metadata = [];
  agent_url = sb.agent_url;
  guest_ip = sb.ip;
}

module _ {E W : Type 0} (rt : Runtime E W) (init_agent : String → Table String String → W → W) where
  -- `if len(req.EnvVars) > 0 { initAgent(sb.AgentURL, req.EnvVars) }`
  unfoldable pub init_with : String → Table String String → W → W
  init_with url [] w = w
  init_with url (v ∷ vs) w = init_agent url (v ∷ vs) w

  -- The part of `Create` behind the call of the runtime.
  unfoldable pub finish_create :
      Orchestrator
      → CreateRequest
      → String
      → Time
      → Result E Sandbox × W
      → Result (OrchError E) VmInstance × Orchestrator × W
  finish_create o req id now (err e, w) = (err (create_failed e), o, w)
  finish_create o req id now (ok sb, w) =
      let vm = new_instance o.config rt.name id req sb now in
      (ok vm, record o { store = put vm o.store }, init_with sb.agent_url req.env_vars w)

  unfoldable pub create :
      Orchestrator
      → CreateRequest
      → String
      → Time
      → W
      → Result (OrchError E) VmInstance × Orchestrator × W
  unfolding finish_create
  create o req uuid now w =
      let id = sandbox_id uuid in
      if leb o.config.max_vms (count o.store)
      then (err (max_reached o.config.max_vms), o, w)
      else finish_create o req id now (rt.create (create_opts id req) w)

  -- An error of the runtime is only logged.
  unfoldable pub delete_vm :
      Orchestrator → String → W → Result (OrchError E) (Unit {0}) × Orchestrator × W
  delete_vm o id w = elim (get id o.store) [
    | none ↦ (err (not_found id), o, w)
    | some vm ↦ (ok tt, record o { store = delete id o.store }, (rt.destroy id w).1)
  ]

  -- The common end of `Pause` and `Resume`: `instance.State = s; o.store.Put(instance)`.
  unfoldable pub set_state :
      Orchestrator
      → VmInstance
      → State
      → Result E (Unit {0}) × W
      → Result (OrchError E) (Unit {0}) × Orchestrator × W
  set_state o vm s (err e, w) = (err (runtime_failed e), o, w)
  set_state o vm s (ok _, w) =
      (ok tt, record o { store = put (record vm { state = s }) o.store }, w)

  unfoldable pub pause :
      Orchestrator → String → W → Result (OrchError E) (Unit {0}) × Orchestrator × W
  unfolding set_state
  pause o id w = elim (get id o.store) [
    | none ↦ (err (not_found id), o, w)
    | some vm ↦
        if is_running vm.state
        then set_state o vm paused (rt.pause id w)
        else (err (not_running id vm.state), o, w)
  ]

  unfoldable pub resume :
      Orchestrator → String → W → Result (OrchError E) (Unit {0}) × Orchestrator × W
  unfolding set_state
  resume o id w = elim (get id o.store) [
    | none ↦ (err (not_found id), o, w)
    | some vm ↦
        if is_paused vm.state
        then set_state o vm running (rt.resume id w)
        else (err (not_paused id vm.state), o, w)
  ]

  unfoldable pub wrap_error : Result E (Unit {0}) → Result (OrchError E) (Unit {0})
  wrap_error (err e) = err (runtime_failed e)
  wrap_error (ok u) = ok u

  unfoldable pub snapshot :
      Orchestrator → String → String → W → Result (OrchError E) (Unit {0}) × Orchestrator × W
  unfolding wrap_error
  snapshot o id snapshot_id w = elim (get id o.store) [
    | none ↦ (err (not_found id), o, w)
    | some vm ↦
        if not (is_running vm.state) && not (is_paused vm.state)
        then (err (not_live id vm.state), o, w)
        else let (done, w') = rt.snapshot id snapshot_id w in (wrap_error done, o, w')
  ]

  -- The part of `Restore` behind the call of the runtime.
  unfoldable pub finish_restore :
      Orchestrator
      → String
      → String
      → ℤ
      → Time
      → Result E Sandbox × W
      → Result (OrchError E) VmInstance × Orchestrator × W
  finish_restore o snapshot_id id timeout now (err e, w) = (err (restore_failed e), o, w)
  finish_restore o snapshot_id id timeout now (ok sb, w) =
      let vm = restored_instance o.config rt.name id snapshot_id timeout sb now in
      (ok vm, record o { store = put vm o.store }, w)

  unfoldable pub restore :
      Orchestrator
      → String
      → ℤ
      → String
      → Time
      → W
      → Result (OrchError E) VmInstance × Orchestrator × W
  unfolding finish_restore
  restore o snapshot_id timeout uuid now w =
      let id = sandbox_id uuid in
      if leb o.config.max_vms (count o.store)
      then (err (max_reached o.config.max_vms), o, w)
      else finish_restore o snapshot_id id timeout now (rt.restore snapshot_id id w)

  -- `DeleteSnapshot` and `ListSnapshots` hand the call and its result on.
  unfoldable pub delete_snapshot : String → W → Result E (Unit {0}) × W
  delete_snapshot snapshot_id w = rt.delete_snapshot snapshot_id w

  unfoldable pub list_snapshots : String → W → Result E (List SnapshotInfo) × W
  list_snapshots id w = rt.list_snapshots id w

  -- The loops of `cleanupExpired` and `Shutdown`: errors are only logged.
  unfoldable pub delete_each : List VmInstance → Orchestrator → W → Orchestrator × W
  unfolding delete_vm
  delete_each [] o w = (o, w)
  delete_each (vm ∷ vms) o w = let r = delete_vm o vm.id w in delete_each vms r.1 r.2

  unfoldable pub cleanup_expired : Time → Orchestrator → W → Orchestrator × W
  cleanup_expired now o w = delete_each (expired now o.store) o w

  unfoldable pub shutdown : Orchestrator → W → Orchestrator × W
  shutdown o w = delete_each (list o.store) o w
