-- ===== src/Firecracker/Vm.antt =====
-- runtime/firecracker/vm.go: the life of one microVM. What it does to the host (files, the process,
-- the API socket of socket.go) is an action whose outcome is a parameter.
pub mod Starting
use gitvm.Base.{
  ℕ, String, Bool, true, false, Result, ok, err, List, [], ◌∷◌, Option, if◌then◌else◌, ◌==◌,
  string_comparable,
}
use gitvm.Base.Effects.{Trace, perform, attempt, poll}
use gitvm.Network.Slot.{Mac}
use gitvm.Firecracker.Config.{
  FilePath, VmConfig, vm_dir, socket_path_for_vm, rootfs_copy_path, kernel_args_with_network,
}

pub data VmState : Type 0 where
  idle starting running stopped : VmState

pub record Vm : Type 0 where
  pub config : VmConfig
  pub state : VmState
  -- `vm.cmd != nil && vm.cmd.Process != nil`
  pub has_process : Bool

pub data Action : Type 0 where
  stat mkdir_all create_file remove_file remove_all : FilePath → Action
  -- `cp --reflink=auto` and the copy by hand
  copy_file copy_by_hand : FilePath → FilePath → Action
  start_process : String → FilePath → Action
  put_machine_config : ℕ → ℕ → Action
  put_boot_source : FilePath → String → Action
  put_drive : FilePath → Action
  put_network_interface : Option Mac → String → Action
  put_instance_start : Action
  -- SIGTERM, and SIGKILL after five seconds
  terminate : Action
  get_health : String → Action

pub data VmError : Type 0 where
  already_running : String → VmError
  id_required kernel_path_required rootfs_path_required kernel_not_found rootfs_not_found : VmError
  create_dir_failed copy_rootfs_failed create_log_failed start_process_failed : VmError
  socket_missing machine_config_failed boot_source_failed add_drive_failed : VmError
  add_interface_failed boot_failed : VmError

unfoldable pub new_vm : VmConfig → Vm
new_vm config = record { config = config; state = idle; has_process = false }

abbrev is_empty_path : FilePath → Bool
is_empty_path [] = true
is_empty_path (_ ∷ _) = false

module _ (succeeds : Trace Action → Action → Bool) where
  -- `VMConfig.Validate`, and what follows when it returns nil
  unfoldable pub validate : VmConfig → Trace Action → Result VmError (Unit {0}) × Trace Action
  validate c t =
      let checked =
        attempt succeeds (stat c.kernel_path) kernel_not_found
          (attempt succeeds (stat c.rootfs_path) rootfs_not_found (λ t'. (ok tt, t'))) t in
      if c.id == ""
      then (err id_required, t)
      else if is_empty_path c.kernel_path
      then (err kernel_path_required, t)
      else if is_empty_path c.rootfs_path
      then (err rootfs_path_required, t)
      else checked

  -- `copyRootfs` tries the copy by hand where `cp` fails.
  unfoldable pub copy_rootfs : VmConfig → Trace Action → Bool × Trace Action
  copy_rootfs c t =
      let (copied, t₁) = perform succeeds (copy_file c.rootfs_path (rootfs_copy_path c)) t in
      if copied
      then (true, t₁)
      else perform succeeds (copy_by_hand c.rootfs_path (rootfs_copy_path c)) t₁

  -- A stale socket is removed whether or not there is one.
  unfoldable pub launch_process : VmConfig → Trace Action → Result VmError (Unit {0}) × Trace Action
  launch_process c t =
      let t₁ = (perform succeeds (remove_file (socket_path_for_vm c)) t).1 in
      attempt succeeds (create_file (c.data_dir ∷ c.id ∷ "firecracker.log" ∷ [])) create_log_failed
        (attempt succeeds (start_process c.firecracker_bin (socket_path_for_vm c))
          start_process_failed (λ t'. (ok tt, t')))
        t₁

  -- The steps of `Start` that set the state to stopped when they fail, and do no more.
  unfoldable pub prepare : VmConfig → Trace Action → Result VmError (Unit {0}) × Trace Action
  prepare c t =
      let (valid, t₁) = validate c t in
      let (made, t₂) = perform succeeds (mkdir_all (vm_dir c)) t₁ in
      let (copied, t₃) = copy_rootfs c t₂ in
      elim valid [
        | err e ↦ (err e, t₁)
        | ok _ ↦
            if made
            then if copied then launch_process c t₃ else (err copy_rootfs_failed, t₃)
            else (err create_dir_failed, t₂)
      ]

  unfoldable pub configure_vm : VmConfig → Trace Action → Result VmError (Unit {0}) × Trace Action
  configure_vm c = attempt succeeds (put_machine_config c.vcpus c.memory_mb) machine_config_failed (
      attempt succeeds (put_boot_source c.kernel_path (kernel_args_with_network c))
        boot_source_failed
        (attempt succeeds (put_drive (rootfs_copy_path c)) add_drive_failed (
          if c.tap_device == ""
          then (λ t. (ok tt, t))
          else attempt succeeds (put_network_interface c.guest_mac c.tap_device)
              add_interface_failed (λ t. (ok tt, t)))))

  -- The steps of `Start` after which a failure stops the VM.
  unfoldable pub boot : VmConfig → Trace Action → Result VmError (Unit {0}) × Trace Action
  boot c t =
      let (ready, t₁) = poll succeeds 50 (stat (socket_path_for_vm c)) socket_missing t in
      let (configured, t₂) = configure_vm c t₁ in
      elim ready [
        | err e ↦ (err e, t₁)
        | ok _ ↦ elim configured [
          | err e ↦ (err e, t₂)
          | ok _ ↦ attempt succeeds put_instance_start boot_failed (λ t'. (ok tt, t')) t₂
        ]
      ]

  -- The error of the cleanup is only logged.
  unfoldable pub stop : Vm → Trace Action → Vm × Trace Action
  stop vm t =
      let t₁ = if vm.has_process then (perform succeeds terminate t).1 else t in
      (record vm { state = stopped }, (perform succeeds (remove_all (vm_dir vm.config)) t₁).1)

  -- `vm.cmd` is a new command without a process once `cmd.Start` has failed.
  abbrev keeps_process : VmError → Vm → Bool
  keeps_process start_process_failed vm = false
  keeps_process e vm = vm.has_process

  -- `Start` behind its first test.
  unfoldable pub start_idle : Vm → Trace Action → Result VmError (Unit {0}) × Vm × Trace Action
  start_idle vm t =
      let (prepared, t₁) = prepare vm.config t in
      let (booted, t₂) = boot vm.config t₁ in
      let launched = record vm { has_process = true } in
      let (halted, t₃) = stop launched t₂ in
      elim prepared [
        | err e ↦ (err e, record vm { state = stopped; has_process = keeps_process e vm }, t₁)
        | ok _ ↦ elim booted [
          | err e ↦ (err e, halted, t₃)
          | ok _ ↦ (ok tt, record launched { state = running }, t₂)
        ]
      ]

  unfoldable pub start : Vm → Trace Action → Result VmError (Unit {0}) × Vm × Trace Action
  unfolding start_idle
  start vm t = elim vm.state [
    | running ↦ (err (already_running vm.config.id), vm, t)
    | _ ↦ start_idle vm t
  ]
