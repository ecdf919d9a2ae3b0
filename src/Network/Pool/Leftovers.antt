-- ===== src/Network/Pool/Leftovers.antt =====
-- What `Allocate` and `Release` of network/pool.go leave on the host.
use gitvm.Base.{
  ℕ, ◌≡◌, refl, Bool, true, false, [], ◌∷◌, Result, ok, err, arith, nat_comparable, nat_beq_iff,
  ◌==◌, if◌then◌else◌, ap, ◌∙◌, String, ◌&&◌,
}
use gitvm.Network.Slot.{Slot, Ip, TapName, gitvm_tap, new_slot}
use gitvm.Network.Host.{
  Command, tuntap_add, addr_add, link_up, link_del, Trace, create_tap, destroy_tap, setup_nat,
  teardown_nat, run,
}
use gitvm.Network.Pool.Cases.{attach-cases, allocate-cases}
use gitvm.Network.Pool.{Pool, AllocateError, attach, allocate, release}

-- Whether the device `gitvm%d` is there, as the last successful command on it says.
abbrev pub is_present : ℕ → Trace → Bool
is_present n [] = false
is_present n ((tuntap_add (gitvm_tap m), true) ∷ t) = if m == n then true else is_present n t
is_present n ((link_del (gitvm_tap m), true) ∷ t) = if m == n then false else is_present n t
is_present n (_ ∷ t) = is_present n t

-- What `ip` is documented to do: a device is not added twice, and one that is there can be deleted.
pub record IsIp (succeeds : Trace → Command → Bool) : Type 0 where
  pub add_once :
      (n : ℕ) (t : Trace) → is_present n t ≡ true → succeeds t (tuntap_add (gitvm_tap n)) ≡ false
  pub del_present :
      (n : ℕ) (t : Trace) → is_present n t ≡ true → succeeds t (link_del (gitvm_tap n)) ≡ true

-- How a call of `Allocate` changes the device `n`.
abbrev pub IsDeviceOutcome : ℕ → Trace → Result AllocateError Slot × Pool × Trace → Type 0
IsDeviceOutcome n t (err _, _, t') = is_present n t' ≡ is_present n t
IsDeviceOutcome n t (ok slot, _, t') =
    is_present n t' ≡ (if slot.id == n then true else is_present n t)

module _ (succeeds : Trace → Command → Bool) where
  run_add :
      (m n : ℕ) (t : Trace)
      → is_present n (run succeeds (tuntap_add (gitvm_tap m)) t).1 ≡ (
          if (run succeeds (tuntap_add (gitvm_tap m)) t).0 && (m == n)
          then true
          else is_present n t)
  unfolding run
  run_add m n t = ground arith

  run_addr :
      (n : ℕ) (ip : Ip) (tap : TapName) (t : Trace)
      → is_present n (run succeeds (addr_add ip tap) t).1 ≡ is_present n t
  unfolding run
  run_addr n ip tap t = ground arith

  run_link_up :
      (n : ℕ) (tap : TapName) (t : Trace)
      → is_present n (run succeeds (link_up tap) t).1 ≡ is_present n t
  unfolding run
  run_link_up n tap t = ground arith

  setup_nat-is_present :
      (slot : Slot) (i : String) (n : ℕ) (t : Trace)
      → is_present n (setup_nat succeeds slot i t).1 ≡ is_present n t
  unfolding setup_nat run
  setup_nat-is_present slot i n t = ground arith

  teardown_nat-is_present :
      (slot : Slot) (i : String) (n : ℕ) (t : Trace)
      → is_present n (teardown_nat succeeds slot i t) ≡ is_present n t
  unfolding teardown_nat run
  teardown_nat-is_present slot i n t = ground arith

module _ (succeeds : Trace → Command → Bool) (ip : IsIp succeeds) where
  destroy_tap-is_present :
      (id n : ℕ) (t : Trace)
      → is_present n (destroy_tap succeeds (new_slot id) t).1
        ≡ (if id == n then false else is_present n t)
  unfolding destroy_tap run new_slot
  destroy_tap-is_present id n t = ground (arith, ip.del_present id t, nat_beq_iff id n)

  run_add_fresh :
      (m : ℕ) (t : Trace)
      → (run succeeds (tuntap_add (gitvm_tap m)) t).0 ≡ true
      → is_present m t ≡ false
  unfolding run
  run_add_fresh m t h = ground (arith, ip.add_once m t)

  create_tap_fresh :
      (id : ℕ) (t : Trace)
      → (create_tap succeeds (new_slot id) t).0 ≡ ok tt
      → is_present id t ≡ false
  unfolding create_tap new_slot
  create_tap_fresh id t h = ground (arith, run_add_fresh id t)

  -- The device is there after a success, and nothing has changed after a failure.
  create_tap-is_present :
      (id n : ℕ) (t : Trace)
      → is_present n (create_tap succeeds (new_slot id) t).1
        ≡ (elim (create_tap succeeds (new_slot id) t).0 [
          | err _ ↦ is_present n t
          | ok _ ↦ if id == n then true else is_present n t
        ])
  unfolding create_tap new_slot
  create_tap-is_present id n t =
      let slot = new_slot id in
      let t₁ = (run succeeds (tuntap_add (gitvm_tap id)) t).1 in
      let t₂ = (run succeeds (addr_add slot.host_ip (gitvm_tap id)) t₁).1 in
      let t₃ = (run succeeds (link_up (gitvm_tap id)) t₂).1 in
      ground (
        arith,
        run_add succeeds id n t,
        run_addr succeeds n slot.host_ip (gitvm_tap id) t₁,
        run_link_up succeeds n (gitvm_tap id) t₂,
        run_add_fresh id t,
        destroy_tap-is_present id n t₂,
        destroy_tap-is_present id n t₃,
        nat_beq_iff id n,
      )

  attach-is_present :
      (p : Pool) (id n : ℕ) (t : Trace) → IsDeviceOutcome n t (attach succeeds p id t)
  unfolding new_slot
  attach-is_present p id n t =
      let slot = new_slot id in
      let made = create_tap succeeds slot t in
      let natted = setup_nat succeeds slot p.host_interface made.1 in
      let created = create_tap-is_present id n t in
      let kept = setup_nat-is_present succeeds slot p.host_interface n made.1 in
      attach-cases succeeds p t (IsDeviceOutcome n t) id (λ e h. rw h at created)
        (λ e up failed. ground (
          arith,
          destroy_tap-is_present id n natted.1,
          kept,
          created,
          create_tap_fresh id t,
          nat_beq_iff id n,
        ))
        (λ up ready. kept ∙ (rw up at created))

  -- On a host where a device is not added twice and one that is there can be deleted, a failed
  -- Allocate leaves the devices of the host as they were, and a successful one adds the device of
  -- its slot and no other.
  pub allocate-is_present :
      (p : Pool) (n : ℕ) (t : Trace) → IsDeviceOutcome n t (allocate succeeds p t)
  allocate-is_present p n t =
      allocate-cases succeeds p t (IsDeviceOutcome n t) (λ _. refl)
        λ id _. attach-is_present p id n t

  -- After `Release` the device of the slot is gone, and the other devices are as before.
  pub release-is_present :
      (p : Pool) (id n : ℕ) (t : Trace)
      → is_present n (release succeeds p (new_slot id) t).1
        ≡ (if id == n then false else is_present n t)
  unfolding release
  release-is_present p id n t =
      let t₁ = teardown_nat succeeds (new_slot id) p.host_interface t in
      destroy_tap-is_present id n t₁
      ∙ ap (λ (b : Bool). if id == n then false else b)
          (teardown_nat-is_present succeeds (new_slot id) p.host_interface n t)
