-- ===== src/Network/Slot.antt =====
-- network/types.go. A text that the source builds with `Sprintf` is kept as the numbers that it
-- prints: `gitvm%d`, `10.0.%d.%d` and `AA:FC:00:00:%02X:%02X`.
pub mod Addresses
use gitvm.Base.{ℕ, ◌+◌, ◌*◌, ◌/◌, ◌%◌}

-- `gitvm%d`
pub data TapName : Type 0 where
  gitvm_tap : ℕ → TapName

-- `10.0.%d.%d`
pub record Ip : Type 0 where
  pub octet3 : ℕ
  pub octet4 : ℕ

-- `AA:FC:00:00:%02X:%02X`
pub record Mac : Type 0 where
  pub byte5 : ℕ
  pub byte6 : ℕ

pub record Slot : Type 0 where
  pub id : ℕ
  pub tap_name : TapName
  pub guest_ip : Ip
  pub host_ip : Ip
  pub guest_mac : Mac

-- `x >> 8 & 0xFF` and `x & 0xFF` are written with `/` and `%`.
unfoldable pub new_slot : ℕ → Slot
new_slot id =
    let base = id * 4 in
    let octet3 = base / 256 % 256 in
    let octet4 = base % 256 in
    record {
      id = id;
      tap_name = gitvm_tap id;
      guest_ip = record { octet3 = octet3; octet4 = octet4 + 2 };
      host_ip = record { octet3 = octet3; octet4 = octet4 + 1 };
      guest_mac = record { byte5 = id / 256 % 256; byte6 = id % 256 };
    }
