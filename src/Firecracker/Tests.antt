-- ===== src/Firecracker/Tests.antt =====
-- A backend over a host where every action succeeds, and one whose VMs do not boot; the theorems about
-- them at concrete inputs.
use gitvm.Base.{
  ◌≡◌, ◌≢◌, refl, String, Bool, true, false, none, some, [], ◌∷◌, pos, negsuc, arith,
  string_comparable, decimal,
}
use gitvm.Base.Effects.{Trace, perform, attempt, poll}
use gitvm.Base.Table.{Table, lookup, insert, remove}
use gitvm.Network.Host as Host
use gitvm.Network.Slot.{new_slot}
use gitvm.Network.Host.{Command}
use gitvm.Network.Pool.{new_pool, allocate, attach, first_free, is_allocated, release}
use gitvm.Template.{Cache, template_path, kernel_path, exists}
use gitvm.Runtime.{CreateOpts}
use gitvm.Orchestrator.Store.{get}
use gitvm.Orchestrator.Calls as Orchestrator
use gitvm.Orchestrator.Calls.{CreateRequest, new_orchestrator}
use gitvm.Orchestrator.Valid.{new_orchestrator-IsValid}
use gitvm.Orchestrator.Valid.Calls.{creates, step}
use gitvm.Orchestrator.Backing.{is_stored}
use gitvm.Firecracker.Backend.Tracking.{has_vm, over_network, firecracker-InSync}
use gitvm.Firecracker.Config.{
  default_config, ip_text, tap_text, vm_dir, socket_path_for_vm, rootfs_copy_path,
  kernel_args_with_network,
}
use gitvm.Firecracker.Vm.{
  Vm, Action, put_instance_start, new_vm, validate, copy_rootfs, launch_process, prepare,
  configure_vm, boot, stop, start_idle, start,
}
use gitvm.Firecracker.Vm.Starting.{IsStart, start-IsStart}
use gitvm.Firecracker.Backend.{
  Config, VmInfo, Backend, World, new_backend, agent_url_of, vm_config, new_sandbox, release_slot,
  finish_boot, boot_in_slot, after_allocate, create, destroy, set_state, firecracker_runtime,
}
use gitvm.Firecracker.Backend.SlotTable.{Owns}
use gitvm.Firecracker.Backend.Ownership.{new_backend-Owns}
use gitvm.Firecracker.Backend.Addresses.{
  Reach, fresh, creates, Reach-Owns, Reach-distinct_addresses,
}

abbrev all_run : Host.Trace → Command → Bool
all_run t c = true

abbrev all_succeed : Trace Action → Action → Bool
all_succeed t a = true

-- The VM is configured, but does not start.
abbrev none_boots : Trace Action → Action → Bool
none_boots t put_instance_start = false
none_boots t a = true

abbrev config : Config
config = record {
  data_dir = "/var/lib/gitvm";
  firecracker_bin = "firecracker";
  host_interface = "eth0";
  max_vms = pos 2;
}

abbrev cache : Cache
cache = record { dir = "/var/lib/gitvm/templates" }

abbrev opts : String → CreateOpts
opts id = record { id = id; template = ""; vcpus = pos 0; memory_mb = negsuc 0; env_vars = [] }

abbrev quiet : World
quiet = record { net = []; host = [] }

backend : Unit {0}
unfolding new_backend create destroy set_state after_allocate boot_in_slot finish_boot release_slot
    new_sandbox agent_url_of vm_config new_slot new_pool allocate attach first_free is_allocated
    release template_path kernel_path exists default_config ip_text tap_text vm_dir
    socket_path_for_vm rootfs_copy_path kernel_args_with_network new_vm validate copy_rootfs
    launch_process prepare configure_vm boot stop start_idle start perform attempt poll lookup
    insert remove decimal Host.run Host.setup_nat Host.create_tap Host.destroy_tap Host.teardown_nat
backend = tt

abbrev empty : Backend
empty = new_backend config cache

abbrev one_vm : Backend
one_vm = (create all_run all_succeed (opts "sb-1") "x" empty quiet).1.0

abbrev two_vms : Backend
two_vms = (create all_run all_succeed (opts "sb-2") "y" one_vm quiet).1.0

-- A VM that does not boot leaves its slot free.
boot_failure_frees_slot :
    is_allocated (create all_run none_boots (opts "sb-1") "x" empty quiet).1.0.net_pool.allocated 0
    ≡ false
unfolding backend
boot_failure_frees_slot = refl

one_vm_slot : is_allocated one_vm.net_pool.allocated 0 ≡ true
unfolding backend
one_vm_slot = refl

abbrev vm : Vm
vm = new_vm (record (default_config "x") {
  id = "sb-1";
  kernel_path = "vmlinux" ∷ [];
  rootfs_path = "rootfs.ext4" ∷ [];
})

start-IsStart_example : IsStart (start none_boots vm [])
unfolding backend
start-IsStart_example = start-IsStart none_boots vm [] (λ e. absurd cc) refl

empty-Owns : Owns empty
empty-Owns = new_backend-Owns config cache

Reach-one_vm : Reach all_run all_succeed config cache one_vm
unfolding backend
Reach-one_vm = creates (opts "sb-1") "x" quiet fresh refl

Reach-two_vms : Reach all_run all_succeed config cache two_vms
unfolding backend
Reach-two_vms = creates (opts "sb-2") "y" quiet (creates (opts "sb-1") "x" quiet fresh refl) refl

Reach-Owns_example : Owns two_vms
Reach-Owns_example = Reach-Owns all_run all_succeed Reach-two_vms

-- The entry of an id, or a VM that was never started.
abbrev entry : String → Backend → VmInfo
entry id f = elim (lookup id f.vms) [
  | none ↦ record { vm = vm; slot = new_slot 0; sb = new_sandbox (opts id) (new_slot 0) }
  | some info ↦ info
]

Reach-distinct_addresses_example :
    ((entry "sb-1" two_vms).slot.guest_ip ≢ (entry "sb-2" two_vms).slot.guest_ip)
    × ((entry "sb-1" two_vms).slot.host_ip ≢ (entry "sb-2" two_vms).slot.host_ip)
    × ((entry "sb-1" two_vms).slot.guest_mac ≢ (entry "sb-2" two_vms).slot.guest_mac)
unfolding backend
Reach-distinct_addresses_example =
    Reach-distinct_addresses all_run all_succeed "sb-1" "sb-2" (entry "sb-1" two_vms)
      (entry "sb-2" two_vms) Reach-two_vms (omega arith) refl refl
      (λ e. ground (arith, string_comparable.same_iff "sb-1" "sb-2"))

abbrev no_init : String → Table String String → World → World
no_init url vars w = w

abbrev host_config : Orchestrator.Config
host_config = record { max_vms = 2; default_timeout_sec = 300 }

abbrev a_request : CreateRequest
a_request = record {
  template = "";
  vcpus = pos 1;
  memory_mb = pos 512;
  timeout = pos 60;
  metadata = [];
  env_vars = [];
}

new_in_sync : (j : String) → has_vm j (empty, quiet) ≡ is_stored j (new_orchestrator host_config)
unfolding backend get
new_in_sync j = refl

firecracker-InSync_example :
    has_vm "sb-1"
      (step
        (firecracker_runtime all_run all_succeed "x")
        (over_network no_init)
        (creates a_request "1" 7)
        (new_orchestrator host_config)
        (empty, quiet)).1
    ≡ is_stored "sb-1"
        (step
          (firecracker_runtime all_run all_succeed "x")
          (over_network no_init)
          (creates a_request "1" 7)
          (new_orchestrator host_config)
          (empty, quiet)).0
firecracker-InSync_example =
    firecracker-InSync all_run all_succeed "x" no_init host_config (creates a_request "1" 7)
      (new_orchestrator host_config) empty quiet (new_orchestrator-IsValid host_config) new_in_sync
      "sb-1"
