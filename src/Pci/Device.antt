-- ===== src/Pci/Device.antt =====
-- The PCI function of transport/pci.rs. The configuration space is the list of its 256 bytes; the wrapped
-- device, guest memory and the interrupt event are values that are kept and handed out. An index that
-- would panic in the source is never reached, since the lists have the lengths of the arrays.
use visor.Prelude.{
  ℕ, zero, suc, ◌+◌, ◌-◌, ◌*◌, ◌/◌, ◌%◌, max, bit_and, bit_or, Bool, false, not, ◌&&◌, ◌||◌, List,
  [], ◌∷◌, Option, none, some, Result, ok, err, ◌>>=◌, length, get_elem?, set, replicate, ltb, leb,
  ◌==◌, if◌then◌else◌,
}
use visor.Prelude.Bytes.{not_u32, to_le_bytes, from_le_bytes, copy_at}
use visor.Virtio.{DeviceType, type_code}

abbrev pub virtio_pci_vendor_id : ℕ
virtio_pci_vendor_id = 0x1AF4

abbrev pub virtio_pci_device_id_base : ℕ
virtio_pci_device_id_base = 0x1040

abbrev pub msix_cap_id : ℕ
msix_cap_id = 0x11

abbrev pub msix_cap_offset : ℕ
msix_cap_offset = 0x40

abbrev pub num_bars : ℕ
num_bars = 6

pub data PciError : Type 0 where
  invalid_bar : ℕ → PciError
  -- The bar, the offset and the size of the region.
  bar_offset_out_of_bounds : ℕ → ℕ → ℕ → PciError

pub record MsixTableEntry : Type 0 where
  pub msg_addr_lo : ℕ
  pub msg_addr_hi : ℕ
  pub msg_data : ℕ
  pub vector_ctrl : ℕ

pub record BarRegion : Type 0 where
  pub size : ℕ
  pub is_io : Bool

-- `D` is the wrapped device, `M` guest memory and `E` an interrupt event.
pub record PciDevice (D M E : Type 0) : Type 0 where
  pub config : List ℕ
  pub bars : List BarRegion
  pub msix_table : List MsixTableEntry
  pub msix_pba : List ℕ
  pub msix_enabled : Bool
  pub device : D
  pub memory : Option M
  pub irq_evt : Option E

-- `to_le_bytes` of a u16.
unfoldable pub to_le_bytes_u16 : ℕ → List ℕ
to_le_bytes_u16 value = value % 256 ∷ value / 256 % 256 ∷ []

-- `div_ceil(64)`.
abbrev pub div_ceil_64 : ℕ → ℕ
div_ceil_64 n = (n + 63) / 64

-- `next_power_of_two`: the power is doubled until the number fits.
unfoldable pub doubled_until : ℕ → ℕ → ℕ → ℕ
doubled_until zero power n = power
doubled_until (suc fuel) power n =
    let next = doubled_until fuel (2 * power) n in if leb n power then power else next

-- Thirty-two doublings pass every u32.
abbrev pub next_power_of_two : ℕ → ℕ
next_power_of_two n = doubled_until 32 1 n

unfoldable pub pba_offset : ℕ → ℕ
pba_offset num_vectors = bit_and (num_vectors * 16 + 0xF) (not_u32 0xF)

unfoldable pub bar4_size : ℕ → ℕ
bar4_size num_vectors =
    max (next_power_of_two (pba_offset num_vectors + div_ceil_64 num_vectors * 8)) 4096

-- The bytes that `new` writes into the zeroed configuration space, in its order.
unfoldable pub initial_config : ℕ → ℕ → List ℕ
initial_config device_id num_vectors =
    let table_size = num_vectors - 1 in
    let zeroed = replicate 256 0 in
    let ids =
      copy_at (copy_at zeroed 0x00 (to_le_bytes_u16 virtio_pci_vendor_id)) 0x02
        (to_le_bytes_u16 device_id) in
    let header = set (set ids 0x06 0x10) 0x0E 0x00 in
    let subsystem = copy_at header 0x2C (to_le_bytes_u16 virtio_pci_vendor_id) in
    let pointer = set subsystem 0x34 msix_cap_offset in
    let capability = set (set pointer msix_cap_offset msix_cap_id) (msix_cap_offset + 1) 0x00 in
    let control =
      set (set capability (msix_cap_offset + 2) (bit_and table_size 0xFF)) (msix_cap_offset + 3)
        (bit_and (table_size / 256) 0x07) in
    let table = set control (msix_cap_offset + 4) 0x04 in
    copy_at table (msix_cap_offset + 8) (to_le_bytes (bit_or (pba_offset num_vectors) 0x04))

unfoldable pub default_bar : BarRegion
default_bar = record { size = 0; is_io = false }

unfoldable pub initial_bars : ℕ → List BarRegion
initial_bars num_vectors =
    set (replicate num_bars default_bar) 4 (record { size = bar4_size num_vectors; is_io = false })

-- The type bits of the I/O bars from index `i` on.
unfoldable pub set_type_bits : List ℕ → List BarRegion → ℕ → List ℕ
set_type_bits config [] i = config
set_type_bits config (bar ∷ bars) i =
    set_type_bits (if ltb 0 bar.size && bar.is_io then set config (0x10 + i * 4) 0x01 else config)
      bars (suc i)

unfoldable pub masked_entry : MsixTableEntry
masked_entry = record { msg_addr_lo = 0; msg_addr_hi = 0; msg_data = 0; vector_ctrl = 1 }

unfoldable pub new : {D M E : Type 0} → DeviceType → D → ℕ → PciDevice D M E
new device_type device num_vectors = record {
  config =
      set_type_bits (initial_config (virtio_pci_device_id_base + type_code device_type) num_vectors)
        (initial_bars num_vectors) 0;
  bars = initial_bars num_vectors;
  msix_table = replicate num_vectors masked_entry;
  msix_pba = replicate (div_ceil_64 num_vectors) 0;
  msix_enabled = false;
  device = device;
  memory = none;
  irq_evt = none;
}

unfoldable pub msix_entry_to_bytes : MsixTableEntry → List ℕ
msix_entry_to_bytes entry =
    copy_at
      (copy_at
        (copy_at (copy_at (replicate 16 0) 0 (to_le_bytes entry.msg_addr_lo)) 4
          (to_le_bytes entry.msg_addr_hi))
        8 (to_le_bytes entry.msg_data))
      12 (to_le_bytes entry.vector_ctrl)

-- The byte at an index of an array, with 0 for the indices that the array does not have.
abbrev pub byte_or_zero : Option ℕ → ℕ
byte_or_zero none = 0
byte_or_zero (some byte) = byte

abbrev pub byte_at : List ℕ → ℕ → ℕ
byte_at bytes i = byte_or_zero (get_elem? bytes i)

-- `u32::from_le_bytes` of four bytes of an array.
abbrev pub word_at : List ℕ → ℕ → ℕ
word_at bytes i =
    from_le_bytes
      (byte_at bytes i ∷ byte_at bytes (i + 1) ∷ byte_at bytes (i + 2) ∷ byte_at bytes (i + 3) ∷ [])

unfoldable pub msix_entry_from_bytes : List ℕ → MsixTableEntry
msix_entry_from_bytes bytes = record {
  msg_addr_lo = word_at bytes 0;
  msg_addr_hi = word_at bytes 4;
  msg_data = word_at bytes 8;
  vector_ctrl = word_at bytes 12;
}

-- The loop that fills `data` from the bytes of an array, from `addr` on; past the array each byte is the one
-- that `outside` gives.
unfoldable pub read_bytes : List ℕ → (ℕ → ℕ) → ℕ → List ℕ → List ℕ
read_bytes bytes outside addr [] = []
read_bytes bytes outside addr (old ∷ rest) =
    elim (get_elem? bytes addr) [ none ↦ outside old | some byte ↦ byte ]
    ∷ read_bytes bytes outside (suc addr) rest

-- The value that a bar's register takes.
unfoldable pub bar_value : BarRegion → ℕ → ℕ
bar_value bar value =
    let type_bits = if bar.is_io then 0x01 else 0x00 in
    let addr_mask = if bar.is_io then not_u32 0x03 else not_u32 0x0F in
    bit_or (bit_and (bit_and value (not_u32 (bar.size - 1))) addr_mask) type_bits

unfoldable pub read_entry : ℕ → List ℕ → Option MsixTableEntry → List ℕ
read_entry off bytes none = bytes
read_entry off bytes (some entry) =
    read_bytes (msix_entry_to_bytes entry) (λ old. old) (off % 16) bytes

-- The checks that reads and writes of a bar begin with.
unfoldable pub check_region : ℕ → ℕ → Option BarRegion → Result Bool PciError
check_region bar_idx offset none = err (PciError.invalid_bar bar_idx)
check_region bar_idx offset (some bar) =
    if bar.size == 0 || leb bar.size offset
    then err (PciError.bar_offset_out_of_bounds bar_idx offset bar.size)
    else ok (bar_idx == 4)

module _ {D M E : Type 0} where
  -- The buffer after `read_config`.
  unfoldable pub read_config : PciDevice D M E → ℕ → List ℕ → List ℕ
  read_config d offset bytes = read_bytes d.config (λ old. 0xFF) offset bytes

  -- The byte of the message control that the driver may write.
  unfoldable pub write_message_control : PciDevice D M E → ℕ → ℕ → PciDevice D M E
  write_message_control d addr byte =
      let stored = bit_or (bit_and byte 0xC0) (bit_and (byte_at d.config addr) 0x3F) in
      record d { config = set d.config addr stored; msix_enabled = not (bit_and stored 0x80 == 0) }

  unfoldable pub write_config_byte : PciDevice D M E → ℕ → ℕ → PciDevice D M E
  write_config_byte d addr byte =
      if leb 0x10 addr && leb addr 0x27
      then d
      else (if (leb 0x04 addr && leb addr 0x05) || addr == 0x3C
          then record d { config = set d.config addr byte }
          else (if addr == msix_cap_offset + 3 then write_message_control d addr byte else d))

  unfoldable pub write_config_bytes : PciDevice D M E → ℕ → List ℕ → PciDevice D M E
  write_config_bytes d addr [] = d
  write_config_bytes d addr (byte ∷ rest) =
      write_config_bytes (write_config_byte d addr byte) (suc addr) rest

  unfoldable pub write_bar_region : PciDevice D M E → ℕ → ℕ → Option BarRegion → PciDevice D M E
  write_bar_region d bar_idx value none = d
  write_bar_region d bar_idx value (some bar) = if bar.size == 0 then d else record d {
    config = copy_at d.config (0x10 + bar_idx * 4) (to_le_bytes (bar_value bar value));
  }

  unfoldable pub write_bar_register : PciDevice D M E → ℕ → ℕ → PciDevice D M E
  write_bar_register d bar_idx value = write_bar_region d bar_idx value (get_elem? d.bars bar_idx)

  unfoldable pub write_config : PciDevice D M E → ℕ → List ℕ → PciDevice D M E
  write_config d start bytes =
      let stored = write_config_bytes d start bytes in
      if (leb 0x10 start && leb start 0x24) && ((start - 0x10) % 4 == 0 && length bytes == 4)
      then (let bar_idx = (start - 0x10) / 4 in
          if ltb bar_idx num_bars
          then write_bar_register stored bar_idx (from_le_bytes bytes)
          else stored)
      else stored

  -- The MSI-X table entry at a byte offset of bar 4, when the offset is in the table.
  unfoldable pub entry_at : PciDevice D M E → ℕ → Option MsixTableEntry
  entry_at d off =
      if ltb off (length d.msix_table * 16) then get_elem? d.msix_table (off / 16) else none

  unfoldable pub read_msix_region : PciDevice D M E → ℕ → List ℕ → List ℕ
  read_msix_region d off bytes = read_entry off bytes (entry_at d off)

  unfoldable pub write_entry :
      PciDevice D M E → ℕ → List ℕ → Option MsixTableEntry → PciDevice D M E
  write_entry d off bytes none = d
  write_entry d off bytes (some entry) = record d {
    msix_table =
        set d.msix_table (off / 16)
          (msix_entry_from_bytes (copy_at (msix_entry_to_bytes entry) (off % 16) bytes));
  }

  unfoldable pub write_msix_region : PciDevice D M E → ℕ → List ℕ → PciDevice D M E
  write_msix_region d off bytes = write_entry d off bytes (entry_at d off)

  unfoldable pub check_bar : PciDevice D M E → ℕ → ℕ → Result Bool PciError
  check_bar d bar_idx offset =
      if leb num_bars bar_idx
      then err (PciError.invalid_bar bar_idx)
      else check_region bar_idx offset (get_elem? d.bars bar_idx)

  unfoldable pub read_bar : PciDevice D M E → ℕ → ℕ → List ℕ → Result (List ℕ) PciError
  read_bar d bar_idx offset bytes = check_bar d bar_idx offset >>= λ msix.
      ok (if msix then read_msix_region d offset bytes else replicate (length bytes) 0)

  unfoldable pub write_bar : PciDevice D M E → ℕ → ℕ → List ℕ → Result (PciDevice D M E) PciError
  write_bar d bar_idx offset bytes = check_bar d bar_idx offset >>= λ msix.
      ok (if msix then write_msix_region d offset bytes else d)

  unfoldable pub set_memory : PciDevice D M E → M → PciDevice D M E
  set_memory d memory = record d { memory = some memory }

  unfoldable pub set_irq_evt : PciDevice D M E → E → PciDevice D M E
  set_irq_evt d evt = record d { irq_evt = some evt }
