-- ===== src/Firecracker/Vm/Starting.antt =====
-- What `Start` and `Stop` of runtime/firecracker/vm.go leave behind.
use gitvm.Base.{
  ℕ, zero, suc, ◌≡◌, ◌≢◌, refl, Bool, true, false, Result, ok, err, [], ◌∷◌, arith, if◌then◌else◌,
  string_comparable,
}
use gitvm.Base.Effects.{Trace, perform, attempt, poll}
use gitvm.Firecracker.Config.{FilePath, VmConfig, vm_dir, socket_path_for_vm}
use gitvm.Firecracker.Vm.{
  running, stopped, Vm, Action, stat, start_process, terminate, VmError, put_instance_start,
  boot_failed, socket_missing, validate, copy_rootfs, launch_process, prepare, configure_vm, boot,
  stop, start_idle, start,
}

-- Whether the last process that was started still runs.
abbrev pub is_alive : Trace Action → Bool
is_alive [] = false
is_alive ((start_process bin socket, true) ∷ t) = true
is_alive ((terminate, done) ∷ t) = false
is_alive (_ ∷ t) = is_alive t

abbrev pub IsStart : Result VmError (Unit {0}) × Vm × Trace Action → Type 0
IsStart (ok _, vm, t) = (vm.state ≡ running) × (is_alive t ≡ true)
IsStart (err _, vm, t) = (vm.state ≡ stopped) × (is_alive t ≡ false)

module _ (succeeds : Trace Action → Action → Bool) where
  validate-is_alive :
      (c : VmConfig) (t : Trace Action) → is_alive (validate succeeds c t).1 ≡ is_alive t
  unfolding validate attempt perform
  validate-is_alive c t = ground arith

  copy_rootfs-is_alive :
      (c : VmConfig) (t : Trace Action) → is_alive (copy_rootfs succeeds c t).1 ≡ is_alive t
  unfolding copy_rootfs perform
  copy_rootfs-is_alive c t = ground arith

  launch_process-is_alive :
      (c : VmConfig) (t : Trace Action)
      → is_alive (launch_process succeeds c t).1
        ≡ (elim (launch_process succeeds c t).0 [ ok _ ↦ true | err _ ↦ is_alive t ])
  unfolding launch_process attempt perform
  launch_process-is_alive c t = ground arith

  mkdir-is_alive :
      (c : VmConfig) (t : Trace Action)
      → is_alive (perform succeeds (Action.mkdir_all (vm_dir c)) t).1 ≡ is_alive t
  unfolding perform
  mkdir-is_alive c t = ground arith

  prepare-is_alive :
      (c : VmConfig) (t : Trace Action)
      → is_alive (prepare succeeds c t).1
        ≡ (elim (prepare succeeds c t).0 [ ok _ ↦ true | err _ ↦ is_alive t ])
  unfolding prepare
  prepare-is_alive c t =
      let t₁ = (validate succeeds c t).1 in
      let t₂ = (perform succeeds (Action.mkdir_all (vm_dir c)) t₁).1 in
      let t₃ = (copy_rootfs succeeds c t₂).1 in
      ground (
        arith,
        validate-is_alive c t,
        mkdir-is_alive c t₁,
        copy_rootfs-is_alive c t₂,
        launch_process-is_alive c t₃,
      )

  -- Polling for the socket starts and ends no process.
  poll-is_alive :
      (n : ℕ) (path : FilePath) (e : VmError) (t : Trace Action)
      → is_alive (poll succeeds n (stat path) e t).1 ≡ is_alive t
  unfolding poll perform
  poll-is_alive zero path e t = refl
  poll-is_alive (suc n) path e t =
      ground (arith, poll-is_alive n path e ((stat path, succeeds t (stat path)) ∷ t))

  configure_vm-is_alive :
      (c : VmConfig) (t : Trace Action) → is_alive (configure_vm succeeds c t).1 ≡ is_alive t
  unfolding configure_vm attempt perform
  configure_vm-is_alive c t = ground arith

  put_start-is_alive :
      (t : Trace Action)
      → is_alive (attempt succeeds put_instance_start boot_failed (λ t'. (ok tt, t')) t).1
        ≡ is_alive t
  unfolding attempt perform
  put_start-is_alive t = ground arith

  boot-is_alive : (c : VmConfig) (t : Trace Action) → is_alive (boot succeeds c t).1 ≡ is_alive t
  unfolding boot
  boot-is_alive c t =
      let t₁ = (poll succeeds 50 (stat (socket_path_for_vm c)) socket_missing t).1 in
      let t₂ = (configure_vm succeeds c t₁).1 in
      ground (
        arith,
        poll-is_alive 50 (socket_path_for_vm c) socket_missing t,
        configure_vm-is_alive c t₁,
        put_start-is_alive t₂,
      )

  stop-is_alive :
      (vm : Vm) (t : Trace Action)
      → is_alive (stop succeeds vm t).1 ≡ (if vm.has_process then false else is_alive t)
  unfolding stop perform
  stop-is_alive vm t = ground arith

  stop-state : (vm : Vm) (t : Trace Action) → (stop succeeds vm t).0.state ≡ stopped
  unfolding stop
  stop-state vm t = refl

  start_idle-IsStart :
      (vm : Vm) (t : Trace Action) → is_alive t ≡ false → IsStart (start_idle succeeds vm t)
  unfolding start_idle
  start_idle-IsStart vm t quiet =
      let t₁ = (prepare succeeds vm.config t).1 in
      let t₂ = (boot succeeds vm.config t₁).1 in
      ground (
        arith,
        prepare-is_alive vm.config t,
        boot-is_alive vm.config t₁,
        stop-is_alive (record vm { has_process = true }) t₂,
        stop-state (record vm { has_process = true }) t₂,
      )

  -- Start of a VM that is not running, where no process is alive: on success it is running and its
  -- process is alive; on any failure it is stopped, and no process that was started is left.
  pub start-IsStart :
      (vm : Vm) (t : Trace Action)
      → vm.state ≢ running
      → is_alive t ≡ false
      → IsStart (start succeeds vm t)
  unfolding start
  start-IsStart vm t idle_vm quiet = ground (arith, start_idle-IsStart vm t quiet)
