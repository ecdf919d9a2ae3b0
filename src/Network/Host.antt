-- ===== src/Network/Host.antt =====
-- network/tap.go and network/iptables.go: the commands run on the host, and their order.
-- `run` starts a program (`ip`, `iptables`, `sysctl`) that is not part of the repository: whether a
-- command succeeds is a parameter, which may depend on all commands run before. The trace holds
-- each command with its outcome, newest first.
use gitvm.Base.{String, Bool, List, ◌∷◌, Result, ok, err, if◌then◌else◌, ◌==◌, string_comparable}
use gitvm.Network.Slot.{Slot, TapName, Ip}

-- One constructor for each argument list that the source passes to `run`.
pub data Command : Type 0 where
  tuntap_add : TapName → Command
  addr_add : Ip → TapName → Command
  link_up : TapName → Command
  link_del : TapName → Command
  -- `iptables -A` and `iptables -D`
  append_out delete_out : TapName → String → Command
  append_in delete_in : TapName → String → Command
  append_masquerade delete_masquerade : Ip → String → Command
  ip_forward : Command

abbrev pub Trace : Type 0
Trace = List (Command × Bool)

-- The wrapped errors of the two files.
pub data HostError : Type 0 where
  create_failed assign_failed bring_up_failed : HostError
  forward_out_failed forward_in_failed masquerade_failed : HostError
  ip_forward_failed : HostError

-- `if hostInterface == "" { hostInterface = "eth0" }`
unfoldable pub interface_or_default : String → String
interface_or_default i = if i == "" then "eth0" else i

module _ (succeeds : Trace → Command → Bool) where
  unfoldable pub run : Command → Trace → Bool × Trace
  run c t = (succeeds t c, (c, succeeds t c) ∷ t)

  unfoldable pub destroy_tap : Slot → Trace → Bool × Trace
  destroy_tap slot t = run (link_del slot.tap_name) t

  unfoldable pub create_tap : Slot → Trace → Result HostError (Unit {0}) × Trace
  create_tap slot t =
      let (added, t₁) = run (tuntap_add slot.tap_name) t in
      let (assigned, t₂) = run (addr_add slot.host_ip slot.tap_name) t₁ in
      let (up, t₃) = run (link_up slot.tap_name) t₂ in
      if added
      then if assigned
        then if up then (ok tt, t₃) else (err bring_up_failed, (destroy_tap slot t₃).1)
        else (err assign_failed, (destroy_tap slot t₂).1)
      else (err create_failed, t₁)

  unfoldable pub setup_nat : Slot → String → Trace → Result HostError (Unit {0}) × Trace
  unfolding interface_or_default
  setup_nat slot host_interface t =
      let i = interface_or_default host_interface in
      let (out, t₁) = run (append_out slot.tap_name i) t in
      let (back, t₂) = run (append_in slot.tap_name i) t₁ in
      let (masked, t₃) = run (append_masquerade slot.guest_ip i) t₂ in
      if out
      then if back
        then if masked then (ok tt, t₃) else (err masquerade_failed, t₃)
        else (err forward_in_failed, t₂)
      else (err forward_out_failed, t₁)

  -- The outcomes of the three commands are ignored.
  unfoldable pub teardown_nat : Slot → String → Trace → Trace
  unfolding interface_or_default
  teardown_nat slot host_interface t =
      let i = interface_or_default host_interface in
      let t₁ = (run (delete_out slot.tap_name i) t).1 in
      let t₂ = (run (delete_in slot.tap_name i) t₁).1 in
      (run (delete_masquerade slot.guest_ip i) t₂).1

  unfoldable pub enable_ip_forwarding : Trace → Result HostError (Unit {0}) × Trace
  enable_ip_forwarding t =
      let (done, t₁) = run ip_forward t in if done then (ok tt, t₁) else (err ip_forward_failed, t₁)
