-- ===== src/Pl011.antt =====
-- crates/visor-vmm/src/devices/pl011.rs: the UART of ARM guests. The output is the list of the bytes that
-- were written to it, oldest first; a failure of the sink is passed over as in the source. The interrupt
-- event is kept by the device and never triggered.
pub mod Registers
mod Tests
use visor.Prelude.{
  ℕ, ◌-◌, bit_and, List, [], ◌∷◌, ◌++◌, length, take, drop, replicate, min, ◌==◌, if◌then◌else◌,
}
use visor.Prelude.Bytes.{not_u32, to_le_bytes, from_le_bytes}

abbrev pub uartdr : ℕ
uartdr = 0x000

abbrev pub uartfr : ℕ
uartfr = 0x018

abbrev pub uartibrd : ℕ
uartibrd = 0x024

abbrev pub uartfbrd : ℕ
uartfbrd = 0x028

abbrev pub uartlcr_h : ℕ
uartlcr_h = 0x02C

abbrev pub uartcr : ℕ
uartcr = 0x030

abbrev pub uartifls : ℕ
uartifls = 0x034

abbrev pub uartimsc : ℕ
uartimsc = 0x038

abbrev pub uartris : ℕ
uartris = 0x03C

abbrev pub uartmis : ℕ
uartmis = 0x040

abbrev pub uarticr : ℕ
uarticr = 0x044

-- TXFE and RXFE.
abbrev pub default_flags : ℕ
default_flags = 0x90

pub record Pl011 : Type 0 where
  pub output : List ℕ
  pub control : ℕ
  pub line_control : ℕ
  pub int_baud : ℕ
  pub frac_baud : ℕ
  pub int_mask : ℕ
  pub raw_int_status : ℕ
  pub ifls : ℕ

unfoldable pub new : Pl011
new = record {
  output = [];
  control = 0x0300;
  line_control = 0;
  int_baud = 0;
  frac_baud = 0;
  int_mask = 0;
  raw_int_status = 0;
  ifls = 0x12;
}

-- The identification registers.
unfoldable pub read_identification : ℕ → ℕ
read_identification offset =
    if offset == 0xFE0
    then 0x11
    else (if offset == 0xFE4
        then 0x10
        else (if offset == 0xFE8
            then 0x14
            else (if offset == 0xFEC
                then 0x00
                else (if offset == 0xFF0
                    then 0x0D
                    else (if offset == 0xFF4
                        then 0xF0
                        else (if offset == 0xFF8
                            then 0x05
                            else (if offset == 0xFFC then 0xB1 else 0)))))))

unfoldable pub read_register : Pl011 → ℕ → ℕ
read_register u offset =
    if offset == uartfr
    then default_flags
    else (if offset == uartibrd
        then u.int_baud
        else (if offset == uartfbrd
            then u.frac_baud
            else (if offset == uartlcr_h
                then u.line_control
                else (if offset == uartcr
                    then u.control
                    else (if offset == uartifls
                        then u.ifls
                        else (if offset == uartimsc
                            then u.int_mask
                            else (if offset == uartris
                                then u.raw_int_status
                                else (if offset == uartmis
                                    then bit_and u.raw_int_status u.int_mask
                                    else read_identification offset))))))))

unfoldable pub write_register : Pl011 → ℕ → ℕ → Pl011
write_register u offset value =
    if offset == uartdr
    then record u { output = u.output ++ bit_and value 0xFF ∷ [] }
    else (if offset == uartibrd
        then record u { int_baud = value }
        else (if offset == uartfbrd
            then record u { frac_baud = bit_and value 0x3F }
            else (if offset == uartlcr_h
                then record u { line_control = value }
                else (if offset == uartcr
                    then record u { control = value }
                    else (if offset == uartifls
                        then record u { ifls = value }
                        else (if offset == uartimsc
                            then record u { int_mask = value }
                            else (if offset == uarticr
                                then record u {
                                  raw_int_status = bit_and u.raw_int_status (not_u32 value);
                                }
                                else u)))))))

-- `BusDevice::read`: the bytes that the buffer holds afterwards.
unfoldable pub read : Pl011 → ℕ → List ℕ → List ℕ
read u offset bytes =
    let len = min (length bytes) 4 in
    take len (to_le_bytes (read_register u offset)) ++ drop len bytes

unfoldable pub write : Pl011 → ℕ → List ℕ → Pl011
write u offset bytes =
    let len = min (length bytes) 4 in
    write_register u offset (from_le_bytes (take len bytes ++ replicate (4 - len) 0))
