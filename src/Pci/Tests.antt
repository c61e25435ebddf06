-- ===== src/Pci/Tests.antt =====
-- Runs of transport/pci.rs and pci_bus.rs on a function with four vectors in slot 3.
use visor.Prelude.{
  ℕ, zero, suc, ◌+◌, ◌-◌, ◌*◌, ◌/◌, ◌%◌, ◌^◌, ◌≤◌, ◌<◌, ◌≡◌, ◌⊎◌, inl, inr, refl, bit_and, Bool,
  true, false, not, List, [], ◌∷◌, Option, none, some, Result, ok, err, length, get_elem?, set,
  arith, if◌then◌else◌,
}
use visor.Prelude.Bytes.{to_le_bytes}
use visor.Virtio.{DeviceType}
use visor.Pci.Device.{
  PciDevice, new, BarRegion, initial_bars, read_config, write_config, read_bar, write_bar,
  bar4_size, div_ceil_64,
}
use visor.Pci.Config.{IsValid, write_config-IsValid}
use visor.Pci.Bars.{read_config-write_config}
use visor.Pci.Fresh.{new-IsValid}
use visor.Pci.Msix.{read_bar-write_bar}
use visor.Pci.Bus.{PciBus}

abbrev F : Type 0
F = PciDevice ℕ ℕ ℕ

abbrev net_function : F
net_function = new DeviceType.net 7 4

abbrev table_bar : BarRegion
table_bar = record { size = bar4_size 4; is_io = false }

abbrev one_slot : PciBus ℕ ℕ ℕ
one_slot = record {
  devices = set (visor.Prelude.replicate 32 none) 3 (some net_function);
  config_address = 0x80001800;
}

valid : IsValid net_function
valid = new-IsValid ℕ ℕ DeviceType.net 7 4

write_config-IsValid_example : IsValid (write_config net_function 0x42 (0 ∷ 128 ∷ []))
write_config-IsValid_example = write_config-IsValid net_function 0x42 (0 ∷ 128 ∷ []) valid

read_config-write_config_example :
    read_config
      (write_config net_function (0x10 + 4 * 4) (to_le_bytes 0xFEB01234))
      (0x10 + 4 * 4)
      (0 ∷ 0 ∷ 0 ∷ 0 ∷ [])
    ≡ to_le_bytes (0xFEB01234 / 2 ^ 12 * 2 ^ 12)
unfolding new initial_bars bar4_size visor.Pci.Device.pba_offset visor.Pci.Device.doubled_until
read_config-write_config_example =
    read_config-write_config net_function 4 12 0xFEB01234 table_bar 0 0 0 0 valid (omega arith) refl
      refl refl (omega arith) (omega arith) (omega arith)

read_bar-write_bar_example :
    (e : F) × (write_bar net_function 4 20 (9 ∷ 8 ∷ []) ≡ ok e)
    × (read_bar e 4 20 (0 ∷ 0 ∷ []) ≡ ok (9 ∷ 8 ∷ []))
    × (get_elem? e.msix_table 2 ≡ get_elem? net_function.msix_table 2)
unfolding new initial_bars bar4_size visor.Pci.Device.pba_offset visor.Pci.Device.doubled_until
read_bar-write_bar_example =
    read_bar-write_bar net_function 20 (9 ∷ 8 ∷ []) (0 ∷ 0 ∷ []) table_bar 2 refl (omega arith)
      (omega arith) (omega arith) refl (ground arith) (ground arith)
