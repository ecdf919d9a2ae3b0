-- ===== src/Firecracker/Backend.antt =====
-- runtime/firecracker/firecracker.go: the microVM backend over the network pool, the template cache
-- and the VMs.
pub mod SlotTable
pub mod Ownership
pub mod Addresses
pub mod Tracking
use gitvm.Base.{
  ℕ, String, Bool, true, false, Option, none, some, List, [], ◌∷◌, Result, ok, err, ℤ, pos, concat,
  decimal, positive_or, if◌then◌else◌, ◌==◌, string_comparable,
}
use gitvm.Base.Effects.{Trace, poll}
use gitvm.Base.Table.{Table, lookup, insert, remove, values}
use gitvm.Network.Slot.{Slot}
use gitvm.Network.Host.{Command}
use gitvm.Network.Host as Host
use gitvm.Network.Pool.{Pool, AllocateError, new_pool, allocate, release}
use gitvm.Template.{Cache, template_path, kernel_path, exists}
use gitvm.Runtime.{State, running, paused, CreateOpts, Sandbox, SnapshotInfo, Runtime}
use gitvm.Firecracker.Config.{VmConfig, default_config, ip_text, tap_text}
use gitvm.Firecracker.Vm.{Vm, Action, VmError, get_health, new_vm, start, stop}

-- The fields that the calls read.
pub record Config : Type 0 where
  pub data_dir : String
  pub firecracker_bin : String
  pub host_interface : String
  pub max_vms : ℤ

pub record VmInfo : Type 0 where
  pub vm : Vm
  pub slot : Slot
  pub sb : Sandbox

pub record Backend : Type 0 where
  pub config : Config
  pub net_pool : Pool
  pub tmpl_cache : Cache
  pub vms : Table String VmInfo

-- The host: the commands of the network, and the actions of the VMs.
pub record World : Type 0 where
  pub net : Host.Trace
  pub host : Trace Action

pub data FcError : Type 0 where
  template_not_found sandbox_not_found : String → FcError
  allocate_failed : AllocateError → FcError
  start_failed : VmError → FcError
  agent_not_ready : String → FcError
  cannot_restart snapshots_not_implemented : FcError

-- `DefaultPort` of agent/main.go
abbrev pub default_port : ℕ
default_port = 49983

unfoldable pub new_backend : Config → Cache → Backend
new_backend c cache = record {
  config = record c { max_vms = pos (positive_or 50 c.max_vms) };
  net_pool = new_pool (pos (positive_or 50 c.max_vms)) c.host_interface;
  tmpl_cache = cache;
  vms = [];
}

abbrev pub template_or_base : String → String
template_or_base name = if name == "" then "base" else name

unfoldable pub agent_url_of : Slot → String
agent_url_of slot =
    concat "http://" (concat (ip_text slot.guest_ip) (concat ":" (decimal default_port)))

-- The configuration of a new VM, over the random part of its first id.
unfoldable pub vm_config :
    Config → CreateOpts → Slot → List String → List String → String → VmConfig
vm_config c opts slot kernel rootfs uuid = record (default_config uuid) {
  id = opts.id;
  vcpus = positive_or 1 opts.vcpus;
  memory_mb = positive_or 512 opts.memory_mb;
  kernel_path = kernel;
  rootfs_path = rootfs;
  data_dir = c.data_dir;
  firecracker_bin = c.firecracker_bin;
  tap_device = tap_text slot.tap_name;
  guest_ip = ip_text slot.guest_ip;
  host_ip = ip_text slot.host_ip;
  guest_mac = some slot.guest_mac;
  gateway_ip = ip_text slot.host_ip;
}

unfoldable pub new_sandbox : CreateOpts → Slot → Sandbox
new_sandbox opts slot = record {
  id = opts.id;
  state = running;
  runtime = "firecracker";
  ip = ip_text slot.guest_ip;
  agent_url = agent_url_of slot;
}

abbrev pub Outcome : Type 0 → Type 0
Outcome A = Result FcError A × (Backend × World)

module _ (runs : Host.Trace → Command → Bool) (succeeds : Trace Action → Action → Bool) where
  -- `netPool.Release(slot)`
  unfoldable pub release_slot : Slot → Backend → World → Backend × World
  release_slot slot f w =
      let (pool, net) = release runs f.net_pool slot w.net in
      (record f { net_pool = pool }, record w { net = net })

  -- The three ends of `Create`, by the results of `vm.Start` and `waitForAgent`. The traces are those
  -- behind the start, behind the wait and behind the stop of a VM whose agent did not answer.
  unfoldable pub finish_boot :
      CreateOpts
      → Slot
      → Backend
      → World
      → Vm
      → Result VmError (Unit {0}) × Trace Action
      → Result FcError (Unit {0}) × Trace Action
      → Trace Action
      → Outcome Sandbox
  unfolding release_slot
  finish_boot opts slot f w vm (err e, h₂) healthy h₄ =
      (err (start_failed e), release_slot slot f (record w { host = h₂ }))
  finish_boot opts slot f w vm (ok _, h₂) (err e, h₃) h₄ =
      (err e, release_slot slot f (record w { host = h₄ }))
  finish_boot opts slot f w vm (ok _, h₂) (ok _, h₃) h₄ =
      let sb = new_sandbox opts slot in
      let info : VmInfo = record { vm = vm; slot = slot; sb = sb } in
      (ok sb, (record f { vms = insert opts.id info f.vms }, record w { host = h₃ }))

  -- `Create` behind the allocation of the slot. `waitForAgent` makes sixty rounds.
  unfoldable pub boot_in_slot : CreateOpts → String → Slot → Backend → World → Outcome Sandbox
  unfolding finish_boot
  boot_in_slot opts uuid slot f w =
      let name = template_or_base opts.template in
      let (kernel, h₁) = kernel_path succeeds f.tmpl_cache name w.host in
      let config = vm_config f.config opts slot kernel (template_path f.tmpl_cache name) uuid in
      let (started, vm, h₂) = start succeeds (new_vm config) h₁ in
      let url = agent_url_of slot in
      let (healthy, h₃) = poll succeeds 60 (get_health url) (agent_not_ready url) h₂ in
      finish_boot opts slot f w vm (started, h₂) (healthy, h₃) (stop succeeds vm h₃).1

  -- `Create` behind the test for the template.
  unfoldable pub after_allocate :
      CreateOpts
      → String
      → Backend
      → Trace Action
      → Result AllocateError Slot × Pool × Host.Trace
      → Outcome Sandbox
  unfolding boot_in_slot
  after_allocate opts uuid f h (err e, pool, net) =
      (err (allocate_failed e), (record f { net_pool = pool }, record { net = net; host = h }))
  after_allocate opts uuid f h (ok slot, pool, net) =
      boot_in_slot opts uuid slot (record f { net_pool = pool }) (record { net = net; host = h })

  unfoldable pub create : CreateOpts → String → Backend → World → Outcome Sandbox
  unfolding after_allocate
  create opts uuid f w =
      let name = template_or_base opts.template in
      let (found, h) = exists succeeds f.tmpl_cache name w.host in
      if found
      then after_allocate opts uuid f h (allocate runs f.net_pool w.net)
      else (err (template_not_found name), (f, record w { host = h }))

  unfoldable pub destroy : String → Backend → World → Outcome (Unit {0})
  destroy id f w = elim (lookup id f.vms) [
    | none ↦ (err (sandbox_not_found id), (f, w))
    | some info ↦
        let h = (stop succeeds info.vm w.host).1 in
        (ok tt, release_slot info.slot (record f { vms = remove id f.vms }) (record w { host = h }))
  ]

  -- The common part of `Pause` and `Resume`: a field of the stored sandbox is written.
  unfoldable pub set_state : String → State → Backend → World → Outcome (Unit {0})
  set_state id s f w = elim (lookup id f.vms) [
    | none ↦ (err (sandbox_not_found id), (f, w))
    | some info ↦
        let info' = record info { sb = record info.sb { state = s } } in
        (ok tt, (record f { vms = insert id info' f.vms }, w))
  ]

  unfoldable pub get : String → Backend → World → Outcome Sandbox
  get id f w = elim (lookup id f.vms) [
    | none ↦ (err (sandbox_not_found id), (f, w))
    | some info ↦ (ok info.sb, (f, w))
  ]

  unfoldable pub sandboxes : List VmInfo → List Sandbox
  sandboxes [] = []
  sandboxes (info ∷ infos) = info.sb ∷ sandboxes infos

  unfoldable pub agent_url : String → Backend → World → Outcome String
  agent_url id f w = elim (lookup id f.vms) [
    | none ↦ (err (sandbox_not_found id), (f, w))
    | some info ↦ (ok info.sb.agent_url, (f, w))
  ]

  -- The backend as a `Runtime`, over a supply of the random part of ids.
  unfoldable pub firecracker_runtime : String → Runtime FcError (Backend × World)
  firecracker_runtime uuid = record {
    name = "firecracker";
    create = λ opts (f, w). create opts uuid f w;
    start = λ id s. (err cannot_restart, s);
    stop = λ id (f, w). destroy id f w;
    destroy = λ id (f, w). destroy id f w;
    pause = λ id (f, w). set_state id paused f w;
    resume = λ id (f, w). set_state id running f w;
    get = λ id (f, w). get id f w;
    list = λ (f, w). (ok (sandboxes (values f.vms)), (f, w));
    agent_url = λ id (f, w). agent_url id f w;
    snapshot = λ id snapshot_id s. (err snapshots_not_implemented, s);
    restore = λ snapshot_id id s. (err snapshots_not_implemented, s);
    delete_snapshot = λ snapshot_id s. (err snapshots_not_implemented, s);
    list_snapshots = λ id s. (err snapshots_not_implemented, s);
  }
