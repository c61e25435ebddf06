-- ===== src/Switch.antt =====
-- crates/visor-runtime/src/net/switch.rs: the virtual switch and its three tables. A text is the
-- list of its bytes, an address its u32. `MacAddr::generate` is not modelled past its mask: the
-- hash is an argument.
pub mod Tables
pub mod Ports
mod Tests
use Prim.Native.Nat.{bit_and, bit_or}
use native.Mathlib.Decide.{ℕ_discrete}
use visor.Prelude.{ℕ, ◌/◌, ◌%◌, List, [], ◌∷◌, Option, none, some, Result, ok, err, length}
use visor.Prelude.Maps
use visor.Prelude.Maps.{Map}
use visor.Prelude.Texts.{Text, text_discrete}

pub record MacAddr : Type 0 where
  pub octets : List ℕ

pub mac_discrete : Discrete MacAddr
mac_discrete = hlevel ℕ_discrete

-- The first octet of `generate`: locally administered, not multicast.
unfoldable pub local_octet : ℕ → ℕ
local_octet x = bit_and (bit_or x 0x02) 0xFE

-- From the 64-bit hash of the network's name and the index: its six low bytes.
unfoldable pub generate : ℕ → MacAddr
generate hash = record {
  octets =
      local_octet (hash % 256)
      ∷ (hash / 0x100 % 256)
      ∷ (hash / 0x10000 % 256)
      ∷ (hash / 0x1000000 % 256)
      ∷ (hash / 0x100000000 % 256)
      ∷ (hash / 0x10000000000 % 256)
      ∷ [];
}

pub record VmNetPort : Type 0 where
  pub vm_id : Text
  pub mac : MacAddr
  pub ip : ℕ

pub record VirtualSwitch : Type 0 where
  pub name : Text
  pub subnet_base : ℕ
  pub subnet_prefix : ℕ
  pub gateway : ℕ
  pub mac_table : Map MacAddr VmNetPort
  pub ip_table : Map ℕ MacAddr
  pub vm_table : Map Text MacAddr

pub data SwitchError : Type 0 where
  mac_registered mac_not_registered : MacAddr → SwitchError
  ip_registered : ℕ → SwitchError

unfoldable pub new : Text → ℕ → ℕ → ℕ → VirtualSwitch
new name base prefix gateway = record {
  name = name;
  subnet_base = base;
  subnet_prefix = prefix;
  gateway = gateway;
  mac_table = [];
  ip_table = [];
  vm_table = [];
}

unfoldable pub port_count : VirtualSwitch → ℕ
port_count s = length s.mac_table

unfoldable pub lookup_mac : VirtualSwitch → MacAddr → Option VmNetPort
lookup_mac s mac = Maps.get mac_discrete mac s.mac_table

-- `.and_then(|mac| self.mac_table.get(mac))`.
unfoldable pub port_of : VirtualSwitch → Option MacAddr → Option VmNetPort
port_of s none = none
port_of s (some mac) = lookup_mac s mac

unfoldable pub lookup_ip : VirtualSwitch → ℕ → Option VmNetPort
unfolding port_of
lookup_ip s ip = port_of s (Maps.get ℕ_discrete ip s.ip_table)

unfoldable pub lookup_vm : VirtualSwitch → Text → Option VmNetPort
unfolding port_of
lookup_vm s vm_id = port_of s (Maps.get text_discrete vm_id s.vm_table)

-- The switch with a port in all three tables.
abbrev pub with_port : VirtualSwitch → VmNetPort → VirtualSwitch
with_port s p = record s {
  mac_table = Maps.insert mac_discrete p.mac p s.mac_table;
  ip_table = Maps.insert ℕ_discrete p.ip p.mac s.ip_table;
  vm_table = Maps.insert text_discrete p.vm_id p.mac s.vm_table;
}

unfoldable pub register_port : VirtualSwitch → Text → MacAddr → ℕ → Result VirtualSwitch SwitchError
register_port s vm_id mac ip = elim (Maps.get mac_discrete mac s.mac_table) [
  | some _ ↦ err (mac_registered mac)
  | none ↦ elim (Maps.get ℕ_discrete ip s.ip_table) [
    | some _ ↦ err (ip_registered ip)
    | none ↦ ok (with_port s (record { vm_id = vm_id; mac = mac; ip = ip }))
  ]
]

unfoldable pub unregister_port : VirtualSwitch → MacAddr → Result VirtualSwitch SwitchError
unregister_port s mac = elim (Maps.get mac_discrete mac s.mac_table) [
  | none ↦ err (mac_not_registered mac)
  | some port ↦ ok (record s {
    mac_table = Maps.remove mac_discrete mac s.mac_table;
    ip_table = Maps.remove ℕ_discrete port.ip s.ip_table;
    vm_table = Maps.remove text_discrete port.vm_id s.vm_table;
  })
]
