-- ===== src/PacketSwitch/Tests.antt =====
-- Runs of net/packet.rs on a switch with two ports.
use visor.Prelude.{◌≡◌, refl, true, false, arith, [], ◌∷◌, ◌++◌, ok, if◌then◌else◌}
use visor.Prelude.Maps
use native.Mathlib.Decide.{ℕ_discrete}
use visor.Prelude.Texts.{text_discrete}
use visor.Switch.{MacAddr, mac_discrete}
use visor.PacketSwitch.{
  EthernetFrame, PacketSwitch, new, register_port, has_port, ip_in_use, forward_frame, try_send,
}
use visor.PacketSwitch.Forwarding.{
  Reachable, started, registered, hung_up, put_port, forward_frame-get, is_for, if_there,
}

abbrev mac_a : MacAddr
mac_a = record { octets = 2 ∷ 0 ∷ 0 ∷ 0 ∷ 0 ∷ 1 ∷ [] }

abbrev mac_b : MacAddr
mac_b = record { octets = 2 ∷ 0 ∷ 0 ∷ 0 ∷ 0 ∷ 2 ∷ [] }

-- From the first port to the second.
abbrev a_to_b : EthernetFrame
a_to_b = record { frame_data = mac_b.octets ++ mac_a.octets ++ (8 ∷ 0 ∷ []) ++ (42 ∷ []) }

abbrev empty_switch : PacketSwitch
empty_switch = record {
  name = [];
  subnet_base = 0;
  subnet_prefix = 24;
  gateway = 1;
  ports = [];
  vm_table = [];
  metrics = record {
    frames_forwarded = 0;
    frames_dropped = 0;
    frames_broadcast = 0;
    bytes_forwarded = 0;
  };
}

abbrev one_port : PacketSwitch
one_port = record empty_switch {
  ports =
      (mac_b, record { vm_id = b'b' ∷ []; mac = mac_b; ip = 9; queue = []; is_open = true }) ∷ [];
  vm_table = (b'b' ∷ [], mac_b) ∷ [];
}

one_port_registered : register_port empty_switch (b'b' ∷ []) mac_b 9 ≡ ok one_port
unfolding register_port has_port ip_in_use Maps.get Maps.insert Maps.remove text_discrete ℕ_discrete
one_port_registered = refl

one_port-Reachable : Reachable one_port
unfolding new
one_port-Reachable =
    registered empty_switch one_port (b'b' ∷ []) mac_b 9 (started [] 0 24 1) one_port_registered

-- The receiver of the port has hung up.
abbrev closed_port : PacketSwitch
closed_port =
    put_port mac_b (record { vm_id = b'b' ∷ []; mac = mac_b; ip = 9; queue = []; is_open = false })
      one_port

closed_port-Reachable : Reachable closed_port
unfolding Maps.get
closed_port-Reachable =
    hung_up one_port mac_b
      (record { vm_id = b'b' ∷ []; mac = mac_b; ip = 9; queue = []; is_open = true })
      one_port-Reachable (ground arith)

forward_frame-get_example :
    Maps.get mac_discrete mac_b (forward_frame closed_port a_to_b).0.ports ≡ (
      if is_for a_to_b mac_b
      then if_there (try_send a_to_b.frame_data) (Maps.get mac_discrete mac_b closed_port.ports)
      else Maps.get mac_discrete mac_b closed_port.ports)
forward_frame-get_example = forward_frame-get closed_port a_to_b mac_b closed_port-Reachable
