-- ===== src/Firecracker/Config.antt =====
-- runtime/firecracker/config.go. A path is the list of the parts that `filepath.Join` is given.
use gitvm.Base.{
  ℕ, Option, none, String, List, [], ◌∷◌, concat, decimal, if◌then◌else◌, ◌==◌, string_comparable,
}
use gitvm.Network.Slot.{Ip, Mac, TapName, gitvm_tap}

abbrev pub FilePath : Type 0
FilePath = List String

pub record VmConfig : Type 0 where
  pub id : String
  pub vcpus : ℕ
  pub memory_mb : ℕ
  pub kernel_path : FilePath
  pub rootfs_path : FilePath
  pub kernel_args : String
  pub socket_path : FilePath
  pub firecracker_bin : String
  pub data_dir : String
  pub tap_device : String
  pub guest_ip : String
  pub host_ip : String
  pub guest_mac : Option Mac
  pub gateway_ip : String
  pub netmask : String

-- `DefaultConfig`, over the random part of its id.
unfoldable pub default_config : String → VmConfig
default_config uuid = record {
  id = uuid;
  vcpus = 1;
  memory_mb = 512;
  kernel_path = [];
  rootfs_path = [];
  kernel_args = "console=ttyS0 reboot=k panic=1 pci=off init=/sbin/init";
  socket_path = [];
  firecracker_bin = "firecracker";
  data_dir = "/tmp/gitvm";
  tap_device = "";
  guest_ip = "";
  host_ip = "";
  guest_mac = none;
  gateway_ip = "";
  netmask = "255.255.255.252";
}

unfoldable pub vm_dir : VmConfig → FilePath
vm_dir c = c.data_dir ∷ c.id ∷ []

unfoldable pub socket_path_for_vm : VmConfig → FilePath
socket_path_for_vm c = elim c.socket_path [
  | [] ↦ c.data_dir ∷ c.id ∷ "firecracker.sock" ∷ []
  | part ∷ parts ↦ part ∷ parts
]

unfoldable pub rootfs_copy_path : VmConfig → FilePath
rootfs_copy_path c = c.data_dir ∷ c.id ∷ "rootfs.ext4" ∷ []

-- `ip=%s::%s:%s::eth0:off`
unfoldable pub kernel_args_with_network : VmConfig → String
kernel_args_with_network c =
    let net_args = concat "ip=" (
      concat c.guest_ip
        (concat "::" (concat c.gateway_ip (concat ":" (concat c.netmask "::eth0:off"))))) in
    if c.guest_ip == "" then c.kernel_args else concat c.kernel_args (concat " " net_args)

-- The texts of a slot.
unfoldable pub ip_text : Ip → String
ip_text ip = concat "10.0." (concat (decimal ip.octet3) (concat "." (decimal ip.octet4)))

unfoldable pub tap_text : TapName → String
tap_text (gitvm_tap n) = concat "gitvm" (decimal n)
