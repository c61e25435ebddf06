-- ===== src/Pci/Bus.antt =====
-- crates/visor-vmm/src/transport/pci_bus.rs: 32 slots behind the two ports of configuration mechanism 1.
-- A slot holds the device itself, so a device that were put into two slots would be two devices here. The
-- devices' mutexes are not poisoned.
use visor.Prelude.{
  ℕ, ◌+◌, ◌*◌, ◌/◌, ◌%◌, ◌^◌, ◌≤◌, ◌<◌, ◌≡◌, ◌≢◌, refl, ap, ◌∙◌, bit_and, Bool, true, false, not,
  ◌&&◌, List, [], ◌∷◌, Option, none, some, Result, ok, err, length, get_elem?, set, replicate, leb,
  ◌==◌, if◌then◌else◌, arith, get_elem?-set_self, get_elem?-set_ne, if_both, if_cases,
  get_elem?-below, leb→le,
}
use visor.Prelude.Bits.{and_one_bit, and_low_mask, and_shifted_mask}
use visor.Prelude.Bytes.{to_le_bytes, from_le_bytes, from_le_bytes-to_le_bytes}
use visor.Pci.Device.{PciDevice, read_config, write_config}

abbrev pub max_devices : ℕ
max_devices = 32

pub data PciBusError : Type 0 where
  invalid_slot : ℕ → PciBusError
  slot_occupied : ℕ → PciBusError

pub record PciBus (D M E : Type 0) : Type 0 where
  pub devices : List (Option (PciDevice D M E))
  pub config_address : ℕ

unfoldable pub new : {D M E : Type 0} → PciBus D M E
new = record { devices = replicate max_devices none; config_address = 0 }

-- A configuration address of mechanism 1: enable bit, bus, device, function, register, lowest bits.
abbrev pub address : Bool → ℕ → ℕ → ℕ → ℕ → ℕ → ℕ
address enabled bus slot function word low =
    (if enabled then 0x80000000 else 0)
    + bus * 65536
    + slot * 2048
    + function * 256
    + word * 4
    + low

slot_bits : (a : ℕ) → bit_and (a / 2 ^ 11) 0x1F ≡ a / 2048 % 32
slot_bits a = and_low_mask 5 (a / 2048)

register_bits : (a : ℕ) → bit_and a 0xFC ≡ a / 4 % 64 * 4
register_bits a = and_shifted_mask 2 63 a ∙ ap (λ (t : ℕ). t * 4) (and_low_mask 6 (a / 4))

enable_bit : (a : ℕ) → bit_and a 0x80000000 ≡ a / 2147483648 % 2 * 2147483648
enable_bit a = and_one_bit 31 a

module _ {D M E : Type 0} where
  -- What adding to a slot does, by what the slot holds.
  unfoldable pub add_to :
      PciBus D M E
      → ℕ
      → PciDevice D M E
      → Option (Option (PciDevice D M E))
      → Result (PciBus D M E) PciBusError
  add_to b slot device (some (some old)) = err (PciBusError.slot_occupied slot)
  add_to b slot device _ = ok (record b { devices = set b.devices slot (some device) })

  unfoldable pub add_device : PciBus D M E → ℕ → PciDevice D M E → Result (PciBus D M E) PciBusError
  add_device b slot device =
      if leb max_devices slot
      then err (PciBusError.invalid_slot slot)
      else add_to b slot device (get_elem? b.devices slot)

  abbrev held_in : Option (Option (PciDevice D M E)) → Option (PciDevice D M E)
  held_in none = none
  held_in (some held) = held

  -- The device in a slot.
  unfoldable pub device : PciBus D M E → ℕ → Option (PciDevice D M E)
  device b slot = held_in (get_elem? b.devices slot)

  unfoldable pub device_number : PciBus D M E → ℕ
  device_number b = bit_and (b.config_address / 2 ^ 11) 0x1F

  unfoldable pub register_offset : PciBus D M E → ℕ
  register_offset b = bit_and b.config_address 0xFC

  unfoldable pub is_enabled : PciBus D M E → Bool
  is_enabled b = not (bit_and b.config_address 0x80000000 == 0)

  unfoldable pub read_device : ℕ → List ℕ → Option (PciDevice D M E) → List ℕ
  read_device register bytes none = to_le_bytes 0xFFFFFFFF
  read_device register bytes (some d) = read_config d register bytes

  unfoldable pub read : PciBus D M E → ℕ → List ℕ → List ℕ
  read b offset bytes =
      if offset == 0 && length bytes == 4
      then to_le_bytes b.config_address
      else (if offset == 4 && length bytes == 4
          then (if is_enabled b
              then read_device (register_offset b) bytes (device b (device_number b))
              else to_le_bytes 0xFFFFFFFF)
          else replicate (length bytes) 0xFF)

  unfoldable pub write_device :
      PciBus D M E → ℕ → ℕ → List ℕ → Option (PciDevice D M E) → PciBus D M E
  write_device b slot register bytes none = b
  write_device b slot register bytes (some d) = record b {
    devices = set b.devices slot (some (write_config d register bytes));
  }

  unfoldable pub write : PciBus D M E → ℕ → List ℕ → PciBus D M E
  write b offset bytes =
      if offset == 0 && length bytes == 4
      then record b { config_address = from_le_bytes bytes }
      else (if offset == 4 && length bytes == 4
          then (if is_enabled b
              then write_device b (device_number b) (register_offset b) bytes
                  (device b (device_number b))
              else b)
          else b)

  -- What the driver reads at the configuration data port: all ones while the enable bit is clear or the
  -- addressed slot is empty, and else the configuration space of the device there, at the addressed word.
  -- The bus, the function and the two lowest bits of the address do not matter.
  pub read-write_address :
      (b : PciBus D M E) (bus slot function word low : ℕ) (enabled : Bool) (x y z w : ℕ)
      → bus < 256
      → slot < 32
      → function < 8
      → word < 64
      → low < 4
      → read
          (write b 0 (to_le_bytes (address enabled bus slot function word low)))
          4
          (x ∷ y ∷ z ∷ w ∷ [])
        ≡ (if enabled
            then read_device (word * 4) (x ∷ y ∷ z ∷ w ∷ []) (device b slot)
            else 255 ∷ 255 ∷ 255 ∷ 255 ∷ [])
  unfolding read write to_le_bytes device is_enabled device_number register_offset
  read-write_address b bus slot function word low true x y z w hb hs hf hw hl =
      let a = address true bus slot function word low in
      let stored = from_le_bytes-to_le_bytes a (omega arith) in
      let on : (bit_and a 0x80000000 == 0) ≡ false = ground (arith, enable_bit a) in
      let s : bit_and (a / 2 ^ 11) 0x1F ≡ slot = omega (arith, slot_bits a) in
      let r : bit_and a 0xFC ≡ word * 4 = omega (arith, register_bits a) in
      rw (stored, on, s, r) refl
  read-write_address b bus slot function word low false x y z w hb hs hf hw hl =
      let a = address false bus slot function word low in
      let stored = from_le_bytes-to_le_bytes a (omega arith) in
      let off : (bit_and a 0x80000000 == 0) ≡ true = ground (arith, enable_bit a) in
      rw (stored, off) refl

  write_device-elsewhere :
      (b : PciBus D M E) (slot register : ℕ) (bytes : List ℕ) (held : Option (PciDevice D M E))
      (j : ℕ)
      → slot ≢ j
      → get_elem? (write_device b slot register bytes held).devices j ≡ get_elem? b.devices j
  unfolding write_device
  write_device-elsewhere b slot register bytes none j h = refl
  write_device-elsewhere b slot register bytes (some d) j h = get_elem?-set_ne b.devices slot j _ h

  -- A write to either port reaches no other slot than the addressed one.
  pub write-elsewhere :
      (b : PciBus D M E) (offset : ℕ) (bytes : List ℕ) (j : ℕ)
      → device_number b ≢ j
      → get_elem? (write b offset bytes).devices j ≡ get_elem? b.devices j
  unfolding write
  write-elsewhere b offset bytes j h =
      let Q = λ (e : PciBus D M E). get_elem? e.devices j ≡ get_elem? b.devices j in
      if_both Q (offset == 0 && length bytes == 4) refl (
        if_both Q (offset == 4 && length bytes == 4)
          (if_both Q (is_enabled b)
            (write_device-elsewhere b (device_number b) (register_offset b) bytes
              (device b (device_number b)) j h)
            refl)
          refl)

  -- What a result of adding a device to a slot says.
  abbrev pub Added : PciBus D M E → ℕ → PciDevice D M E → Result (PciBus D M E) PciBusError → Type 0
  Added b slot d (ok e) =
      slot < 32
      × (get_elem? b.devices slot ≡ some none)
      × (device e slot ≡ some d)
      × (e ≡ record b { devices = set b.devices slot (some d) })
  Added b slot d (err (PciBusError.invalid_slot s)) = (s ≡ slot) × (32 ≤ slot)
  Added b slot d (err (PciBusError.slot_occupied s)) =
      (s ≡ slot) × ((old : PciDevice D M E) × (get_elem? b.devices slot ≡ some (some old)))

  add_to-Added :
      (b : PciBus D M E) (slot : ℕ) (d : PciDevice D M E) (held : Option (PciDevice D M E))
      → length b.devices ≡ 32
      → slot < 32
      → get_elem? b.devices slot ≡ some held
      → Added b slot d (add_to b slot d (some held))
  unfolding add_to device
  add_to-Added b slot d none len small at =
      let now = get_elem?-set_self b.devices slot (some d) (omega arith) in
      (small, at, ap held_in now, refl)
  add_to-Added b slot d (some old) len small at = (refl, (old, at))

  -- A slot takes a device exactly if it is one of the 32 and empty: the device is then in that slot, and
  -- the others are as before. The errors name the slot and say which of the two fails.
  pub add_device-Added :
      (b : PciBus D M E) (slot : ℕ) (d : PciDevice D M E)
      → length b.devices ≡ 32
      → Added b slot d (add_device b slot d)
  unfolding add_device
  add_device-Added b slot d len =
      if_cases (Added b slot d) (leb 32 slot) (λ large. (refl, leb→le 32 slot large))
        (λ small.
          let below : slot < 32 = ground arith in
          let (held, at) = get_elem?-below b.devices slot (omega arith) in
          rw at (add_to-Added b slot d held len below at))
