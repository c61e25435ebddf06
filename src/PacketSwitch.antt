-- ===== src/PacketSwitch.antt =====
-- crates/visor-runtime/src/net/packet.rs: Ethernet frames and the switch that forwards them between the
-- ports of VMs. A port's channel is the list of the frames that its receiver has not taken yet, and whether
-- the receiver is alive. An address is its u32. The counters stay below 2 ^ 64.
pub mod Frames
pub mod Forwarding
mod Tests
use visor.Prelude.{
  ℕ, suc, ◌+◌, ◌*◌, ◌/◌, ◌%◌, Bool, true, false, ◌&&◌, List, [], ◌∷◌, ◌++◌, Option, none, some,
  Result, ok, err, length, take, drop, get_elem?, ltb, ◌==◌, if◌then◌else◌,
}
use visor.Prelude.Texts.{Text, text_discrete, same_text}
use visor.Prelude.Maps
use visor.Prelude.Maps.{Map}
use visor.Switch.{MacAddr, mac_discrete}
use mathlib.Core.Logic.{ite}

abbrev pub ethertype_ipv4 : ℕ
ethertype_ipv4 = 0x0800

abbrev pub ethertype_arp : ℕ
ethertype_arp = 0x0806

abbrev pub min_frame_size : ℕ
min_frame_size = 14

abbrev pub broadcast_mac : List ℕ
broadcast_mac = 0xFF ∷ 0xFF ∷ 0xFF ∷ 0xFF ∷ 0xFF ∷ 0xFF ∷ []

abbrev pub default_channel_capacity : ℕ
default_channel_capacity = 256

pub record EthernetFrame : Type 0 where
  pub frame_data : List ℕ

pub data PacketError : Type 0 where
  frame_too_short : ℕ → PacketError
  mac_taken mac_unknown : MacAddr → PacketError
  ip_taken : ℕ → PacketError

unfoldable pub parse : List ℕ → Result EthernetFrame PacketError
parse bytes =
    if ltb (length bytes) min_frame_size
    then err (PacketError.frame_too_short (length bytes))
    else ok (record { frame_data = bytes })

unfoldable pub dst_mac : EthernetFrame → MacAddr
dst_mac f = record { octets = take 6 f.frame_data }

unfoldable pub src_mac : EthernetFrame → MacAddr
src_mac f = record { octets = take 6 (drop 6 f.frame_data) }

-- `u16::from_be_bytes`.
unfoldable pub from_be_bytes : Option ℕ → Option ℕ → ℕ
from_be_bytes (some high) (some low) = high * 256 + low
from_be_bytes _ _ = 0

-- The length is checked by `parse`, so that the two bytes are there.
unfoldable pub ethertype : EthernetFrame → ℕ
ethertype f = from_be_bytes (get_elem? f.frame_data 12) (get_elem? f.frame_data 13)

unfoldable pub payload : EthernetFrame → List ℕ
payload f = drop min_frame_size f.frame_data

unfoldable pub is_broadcast : EthernetFrame → Bool
is_broadcast f = same_text (take 6 f.frame_data) broadcast_mac

unfoldable pub is_arp : EthernetFrame → Bool
is_arp f = ethertype f == ethertype_arp

unfoldable pub is_ipv4 : EthernetFrame → Bool
is_ipv4 f = ethertype f == ethertype_ipv4

unfoldable pub build : MacAddr → MacAddr → ℕ → List ℕ → List ℕ
build dst src kind content =
    dst.octets ++ src.octets ++ (kind / 256 % 256 ∷ kind % 256 ∷ []) ++ content

pub record SwitchMetrics : Type 0 where
  pub frames_forwarded : ℕ
  pub frames_dropped : ℕ
  pub frames_broadcast : ℕ
  pub bytes_forwarded : ℕ

pub record SwitchPort : Type 0 where
  pub vm_id : Text
  pub mac : MacAddr
  pub ip : ℕ
  pub queue : List (List ℕ)
  pub is_open : Bool

pub record PacketSwitch : Type 0 where
  pub name : Text
  pub subnet_base : ℕ
  pub subnet_prefix : ℕ
  pub gateway : ℕ
  pub ports : Map MacAddr SwitchPort
  pub vm_table : Map Text MacAddr
  pub metrics : SwitchMetrics

unfoldable pub new : Text → ℕ → ℕ → ℕ → PacketSwitch
new name subnet_base subnet_prefix gateway = record {
  name = name;
  subnet_base = subnet_base;
  subnet_prefix = subnet_prefix;
  gateway = gateway;
  ports = [];
  vm_table = [];
  metrics = record {
    frames_forwarded = 0;
    frames_dropped = 0;
    frames_broadcast = 0;
    bytes_forwarded = 0;
  };
}

unfoldable pub port_count : PacketSwitch → ℕ
port_count s = length s.ports

unfoldable pub has_port : PacketSwitch → MacAddr → Bool
has_port s mac = elim (Maps.get mac_discrete mac s.ports) [ none ↦ false | some _ ↦ true ]

-- Whether one of the ports has the address.
unfoldable pub ip_in_use : ℕ → Map MacAddr SwitchPort → Bool
ip_in_use ip [] = false
ip_in_use ip ((mac, port) ∷ rest) = if port.ip == ip then true else ip_in_use ip rest

unfoldable pub register_port : PacketSwitch → Text → MacAddr → ℕ → Result PacketSwitch PacketError
register_port s vm_id mac ip =
    let port : SwitchPort = record {
      vm_id = vm_id;
      mac = mac;
      ip = ip;
      queue = [];
      is_open = true;
    } in
    if has_port s mac
    then err (PacketError.mac_taken mac)
    else (if ip_in_use ip s.ports
        then err (PacketError.ip_taken ip)
        else ok (record s {
          ports = Maps.insert mac_discrete mac port s.ports;
          vm_table = Maps.insert text_discrete vm_id mac s.vm_table;
        }))

unfoldable pub unregister_found :
    PacketSwitch → MacAddr → Option SwitchPort → Result PacketSwitch PacketError
unregister_found s mac none = err (PacketError.mac_unknown mac)
unregister_found s mac (some port) = ok (record s {
  ports = Maps.remove mac_discrete mac s.ports;
  vm_table = Maps.remove text_discrete port.vm_id s.vm_table;
})

unfoldable pub unregister_port : PacketSwitch → MacAddr → Result PacketSwitch PacketError
unregister_port s mac = unregister_found s mac (Maps.get mac_discrete mac s.ports)

-- Whether `try_send` succeeds.
unfoldable pub has_room : SwitchPort → Bool
has_room p = p.is_open && ltb (length p.queue) default_channel_capacity

-- The port after `try_send`.
unfoldable pub try_send : List ℕ → SwitchPort → SwitchPort
try_send frame p = if has_room p then record p { queue = p.queue ++ frame ∷ [] } else p

-- The loop over the senders, with the number of ports that took the frame.
unfoldable pub send_all : MacAddr → List ℕ → Map MacAddr SwitchPort → Map MacAddr SwitchPort × ℕ
send_all src frame [] = ([], 0)
send_all src frame ((mac, port) ∷ rest) =
    let later = send_all src frame rest in
    ite (mac_discrete mac src) ((mac, port) ∷ later.0, later.1)
      ((mac, try_send frame port) ∷ later.0, (if has_room port then suc later.1 else later.1))

unfoldable pub drop_frame : PacketSwitch → PacketSwitch × ℕ
drop_frame s =
    (record s { metrics = record s.metrics { frames_dropped = suc s.metrics.frames_dropped } }, 0)

unfoldable pub forward_to :
    PacketSwitch → MacAddr → MacAddr → List ℕ → Option SwitchPort → PacketSwitch × ℕ
forward_to s dst src frame none = drop_frame s
forward_to s dst src frame (some port) = ite (mac_discrete port.mac src) (drop_frame s) (
    if has_room port
    then (
      record s {
        ports = Maps.insert mac_discrete dst (try_send frame port) s.ports;
        metrics = record s.metrics {
          frames_forwarded = suc s.metrics.frames_forwarded;
          bytes_forwarded = s.metrics.bytes_forwarded + length frame;
        };
      },
      1,
    )
    else drop_frame s)

unfoldable pub forward_broadcast : PacketSwitch → MacAddr → List ℕ → PacketSwitch × ℕ
forward_broadcast s src frame =
    let sent = send_all src frame s.ports in
    (
      record s {
        ports = sent.0;
        metrics = record s.metrics {
          frames_broadcast = suc s.metrics.frames_broadcast;
          frames_forwarded = s.metrics.frames_forwarded + sent.1;
          bytes_forwarded = s.metrics.bytes_forwarded + length frame * sent.1;
        };
      },
      sent.1,
    )

-- The switch afterwards, and the number of ports that the frame was delivered to.
unfoldable pub forward_frame : PacketSwitch → EthernetFrame → PacketSwitch × ℕ
forward_frame s f =
    if is_broadcast f
    then forward_broadcast s (src_mac f) f.frame_data
    else forward_to s (dst_mac f) (src_mac f) f.frame_data
        (Maps.get mac_discrete (dst_mac f) s.ports)

unfoldable pub lookup_vm : PacketSwitch → Text → Option MacAddr
lookup_vm s vm_id = Maps.get text_discrete vm_id s.vm_table

unfoldable pub lookup_mac : PacketSwitch → MacAddr → Option Text
lookup_mac s mac = elim (Maps.get mac_discrete mac s.ports) [
  | none ↦ none
  | some port ↦ some port.vm_id
]
