-- ===== src/Network/Slot/Addresses.antt =====
-- What the addresses of a slot are worth: network/types.go, `NewSlot`.
use gitvm.Base.{ℕ, ◌+◌, ◌*◌, ◌/◌, ◌%◌, ◌<◌, ◌≡◌, ◌≢◌, arith}
use gitvm.Network.Slot.{Ip, new_slot}

-- The low 16 bits of an address in 10.0.0.0/16.
abbrev pub host_part : Ip → ℕ
host_part ip = ip.octet3 * 256 + ip.octet4

-- The number of the /30 network that an address lies in.
abbrev pub subnet : Ip → ℕ
subnet ip = host_part ip / 4

-- The two addresses of a slot are valid octets and the first and second host of one /30 network,
-- which below slot 16384 has the number of the slot.
pub new_slot-subnet :
    (id : ℕ)
    → id < 16384
    → (subnet (new_slot id).host_ip ≡ id)
      × (subnet (new_slot id).guest_ip ≡ id)
      × (host_part (new_slot id).host_ip % 4 ≡ 1)
      × (host_part (new_slot id).guest_ip % 4 ≡ 2)
      × ((new_slot id).guest_ip.octet3 < 256)
      × ((new_slot id).guest_ip.octet4 < 256)
unfolding new_slot
new_slot-subnet id h = omega arith

-- Two different slots below 16384 share no guest address, no host address and no MAC address.
pub new_slot_distinct :
    (i j : ℕ)
    → i < 16384
    → j < 16384
    → i ≢ j
    → ((new_slot i).guest_ip ≢ (new_slot j).guest_ip)
      × ((new_slot i).host_ip ≢ (new_slot j).host_ip)
      × ((new_slot i).guest_mac ≢ (new_slot j).guest_mac)
unfolding new_slot
new_slot_distinct i j hi hj ne = ground arith

-- Slot id + 16384 has the guest and the host address of slot id, and another TAP device.
pub new_slot_wraps :
    (id : ℕ)
    → ((new_slot (id + 16384)).guest_ip ≡ (new_slot id).guest_ip)
      × ((new_slot (id + 16384)).host_ip ≡ (new_slot id).host_ip)
      × ((new_slot (id + 16384)).tap_name ≢ (new_slot id).tap_name)
unfolding new_slot
new_slot_wraps id = ground arith
