-- ===== src/Switch/Tests.antt =====
-- The virtual switch of net/switch.rs with one and two ports.
use native.Mathlib.Decide.{ℕ_discrete}
use visor.Prelude.{◌≡◌, refl, List, [], ◌∷◌, ok}
use visor.Prelude.Maps
use visor.Switch.{MacAddr, VmNetPort, VirtualSwitch, new, with_port, register_port, mac_discrete}
use visor.Prelude.Texts.{text_discrete}
use visor.Switch.Tables.{Inv, Call, registers, unregisters, run, step, run-Inv}

abbrev mac_a : MacAddr
mac_a = record { octets = 2 ∷ 0 ∷ 0 ∷ 0 ∷ 0 ∷ 1 ∷ [] }

abbrev mac_b : MacAddr
mac_b = record { octets = 2 ∷ 0 ∷ 0 ∷ 0 ∷ 0 ∷ 2 ∷ [] }

abbrev empty : VirtualSwitch
empty = record {
  name = [];
  subnet_base = 0;
  subnet_prefix = 24;
  gateway = 1;
  mac_table = [];
  ip_table = [];
  vm_table = [];
}

-- The port of the VM "7" at IP 9.
abbrev port_a : VmNetPort
port_a = record { vm_id = 7 ∷ []; mac = mac_a; ip = 9 }

abbrev one : VirtualSwitch
one = record empty {
  mac_table = (mac_a, port_a) ∷ [];
  ip_table = (9, mac_a) ∷ [];
  vm_table = (7 ∷ [], mac_a) ∷ [];
}

-- A second port under the same identifier.
abbrev both : VirtualSwitch
both = with_port one (record { vm_id = 7 ∷ []; mac = mac_b; ip = 10 })

registers_one : register_port empty (7 ∷ []) mac_a 9 ≡ ok one
unfolding register_port Maps.get Maps.insert Maps.remove
registers_one = refl

registers_both : register_port one (7 ∷ []) mac_b 10 ≡ ok both
unfolding register_port Maps.get mac_discrete text_discrete ℕ_discrete
registers_both = refl

abbrev history : List Call
history = registers (7 ∷ []) mac_a 9 ∷ registers (7 ∷ []) mac_b 10 ∷ unregisters mac_a ∷ []

run-Inv_example : Inv (run (new [] 0 24 1) history)
run-Inv_example = run-Inv [] 0 24 1 history

empty-Inv : Inv empty
unfolding new run
empty-Inv = run-Inv [] 0 24 1 []

one-Inv : Inv one
unfolding new run step register_port Maps.get Maps.insert Maps.remove
one-Inv = run-Inv [] 0 24 1 (registers (7 ∷ []) mac_a 9 ∷ [])
