-- ===== src/Network/Tests.antt =====
-- Runs of the network pool, and the theorems about it at concrete inputs.
use gitvm.Base.{◌≡◌, refl, Bool, true, false, [], ◌∷◌, ok, err, arith, nat_comparable, not}
use gitvm.Base.Table.{lookup, insert, remove}
use gitvm.Network.Slot.{gitvm_tap, new_slot}
use gitvm.Network.Host.{
  Command, tuntap_add, append_masquerade, Trace, masquerade_failed, create_tap, destroy_tap,
  setup_nat, teardown_nat, run,
}
use gitvm.Network.Pool.{
  Pool, no_free_slots, setup_nat_failed, is_allocated, first_free, allocate, release, count,
}
use gitvm.Network.Pool.Allocation.{IsAllocation, allocate-IsAllocation}
use gitvm.Network.Pool.Leftovers.{is_present, IsIp, IsDeviceOutcome, allocate-is_present}

-- A host on which every command succeeds that can: a device is added once.
abbrev healthy : Trace → Command → Bool
healthy t (tuntap_add (gitvm_tap n)) = not (is_present n t)
healthy t _ = true

healthy-IsIp : IsIp healthy
healthy-IsIp = record { add_once = λ n t h. ground arith; del_present = λ n t h. refl }

-- The same host without a masquerade target.
abbrev no_masquerade : Trace → Command → Bool
no_masquerade t (append_masquerade ip i) = false
no_masquerade t _ = true

abbrev two_slots : Pool
two_slots = record { max_slots = 2; allocated = (0, true) ∷ []; host_interface = "eth0" }

network : Unit {0}
unfolding allocate release first_free is_allocated create_tap destroy_tap setup_nat teardown_nat run
    lookup insert remove new_slot count
network = tt

second_slot : (allocate healthy two_slots []).0 ≡ ok (new_slot 1)
unfolding network
second_slot = refl

full_pool : (allocate healthy (record two_slots { max_slots = 1 }) []).0 ≡ err (no_free_slots 1)
unfolding network
full_pool = refl

failed_nat : (allocate no_masquerade two_slots []).0 ≡ err (setup_nat_failed masquerade_failed)
unfolding network
failed_nat = refl

allocate-IsAllocation_example : IsAllocation two_slots (allocate healthy two_slots [])
allocate-IsAllocation_example = allocate-IsAllocation healthy two_slots []

allocate-is_present_example : IsDeviceOutcome 1 [] (allocate healthy two_slots [])
allocate-is_present_example = allocate-is_present healthy healthy-IsIp two_slots 1 []
