-- ===== src/Uart.antt =====
-- crates/visor-vmm/src/devices/uart.rs: the 16550 UART. A register is a number below 256. The output
-- sink is the list of the bytes sent to it, the last one first, and its errors, which the code drops,
-- are not seen; the interrupt event is a count of its triggers.
pub mod Invariant
pub mod Fifo
pub mod Modes
mod Tests
use visor.Prelude.{
  ℕ, ◌+◌, ◌-◌, min, bit_and, bit_or, Bool, not, ◌&&◌, List, [], ◌∷◌, ◌++◌, Option, none, some,
  length, take, ltb, ◌==◌, if◌then◌else◌,
}

abbrev pub data_offset : ℕ
data_offset = 0

abbrev pub ier_offset : ℕ
ier_offset = 1

abbrev pub iir_offset : ℕ
iir_offset = 2

abbrev pub lcr_offset : ℕ
lcr_offset = 3

abbrev pub mcr_offset : ℕ
mcr_offset = 4

abbrev pub lsr_offset : ℕ
lsr_offset = 5

abbrev pub msr_offset : ℕ
msr_offset = 6

abbrev pub scr_offset : ℕ
scr_offset = 7

abbrev pub fifo_size : ℕ
fifo_size = 0x40

abbrev pub ier_rda_bit : ℕ
ier_rda_bit = 0x01

abbrev pub ier_thr_empty_bit : ℕ
ier_thr_empty_bit = 0x02

abbrev pub ier_valid_bits : ℕ
ier_valid_bits = 0x0F

abbrev pub iir_fifo_bits : ℕ
iir_fifo_bits = 0xC0

abbrev pub iir_none_bit : ℕ
iir_none_bit = 0x01

abbrev pub iir_thr_empty_bit : ℕ
iir_thr_empty_bit = 0x02

abbrev pub iir_rda_bit : ℕ
iir_rda_bit = 0x04

abbrev pub lsr_data_ready_bit : ℕ
lsr_data_ready_bit = 0x01

abbrev pub lsr_empty_thr_bit : ℕ
lsr_empty_thr_bit = 0x20

abbrev pub lsr_idle_bit : ℕ
lsr_idle_bit = 0x40

abbrev pub mcr_loop_bit : ℕ
mcr_loop_bit = 0x10

abbrev pub mcr_out2_bit : ℕ
mcr_out2_bit = 0x08

abbrev pub msr_cts_bit : ℕ
msr_cts_bit = 0x10

abbrev pub msr_dsr_bit : ℕ
msr_dsr_bit = 0x20

abbrev pub msr_dcd_bit : ℕ
msr_dcd_bit = 0x80

-- `!x` on a u8.
abbrev pub not_u8 : ℕ → ℕ
not_u8 x = 255 - x

pub record Uart16550 : Type 0 where
  pub interrupt_enable : ℕ
  pub interrupt_identification : ℕ
  pub line_control : ℕ
  pub modem_control : ℕ
  pub line_status : ℕ
  pub modem_status : ℕ
  pub scratch : ℕ
  pub baud_divisor_low : ℕ
  pub baud_divisor_high : ℕ
  pub in_buffer : List ℕ
  pub output : List ℕ
  pub interrupts : ℕ

unfoldable pub new : Uart16550
new = record {
  interrupt_enable = 0x00;
  interrupt_identification = iir_none_bit;
  line_control = 0x03;
  modem_control = mcr_out2_bit;
  line_status = bit_or lsr_empty_thr_bit lsr_idle_bit;
  modem_status = bit_or (bit_or msr_dsr_bit msr_cts_bit) msr_dcd_bit;
  scratch = 0;
  baud_divisor_low = 0x0C;
  baud_divisor_high = 0x00;
  in_buffer = [];
  output = [];
  interrupts = 0;
}

unfoldable pub is_dlab_set : Uart16550 → Bool
is_dlab_set u = not (bit_and u.line_control 0x80 == 0)

unfoldable pub is_rda_interrupt_enabled : Uart16550 → Bool
is_rda_interrupt_enabled u = not (bit_and u.interrupt_enable ier_rda_bit == 0)

unfoldable pub is_thr_interrupt_enabled : Uart16550 → Bool
is_thr_interrupt_enabled u = not (bit_and u.interrupt_enable ier_thr_empty_bit == 0)

unfoldable pub is_in_loop_mode : Uart16550 → Bool
is_in_loop_mode u = not (bit_and u.modem_control mcr_loop_bit == 0)

unfoldable pub set_lsr_rda_bit : Uart16550 → Uart16550
set_lsr_rda_bit u = record u { line_status = bit_or u.line_status lsr_data_ready_bit }

unfoldable pub clear_lsr_rda_bit : Uart16550 → Uart16550
clear_lsr_rda_bit u = record u { line_status = bit_and u.line_status (not_u8 lsr_data_ready_bit) }

unfoldable pub add_interrupt : Uart16550 → ℕ → Uart16550
add_interrupt u bits = record u {
  interrupt_identification = bit_or (bit_and u.interrupt_identification (not_u8 iir_none_bit)) bits;
}

unfoldable pub del_interrupt : Uart16550 → ℕ → Uart16550
del_interrupt u bits =
    let iir = bit_and u.interrupt_identification (not_u8 bits) in
    record u { interrupt_identification = if iir == 0 then iir_none_bit else iir }

-- `self.interrupt_evt.trigger()`.
abbrev pub trigger : Uart16550 → Uart16550
trigger u = record u { interrupts = u.interrupts + 1 }

unfoldable pub thr_empty_interrupt : Uart16550 → Uart16550
thr_empty_interrupt u =
    if is_thr_interrupt_enabled u && bit_and u.interrupt_identification iir_thr_empty_bit == 0
    then trigger (add_interrupt u iir_thr_empty_bit)
    else u

unfoldable pub received_data_interrupt : Uart16550 → Uart16550
received_data_interrupt u =
    if is_rda_interrupt_enabled u && bit_and u.interrupt_identification iir_rda_bit == 0
    then trigger (add_interrupt u iir_rda_bit)
    else u

unfoldable pub reset_iir : Uart16550 → Uart16550
reset_iir u = record u { interrupt_identification = iir_none_bit }

-- `pop_front`, and the Data Ready bit that follows the buffer.
unfoldable pub pop_front : Uart16550 → List ℕ → Uart16550 × ℕ
pop_front u [] = (clear_lsr_rda_bit u, 0)
pop_front u (byte ∷ []) = (clear_lsr_rda_bit (record u { in_buffer = [] }), byte)
pop_front u (byte ∷ next ∷ rest) = (record u { in_buffer = next ∷ rest }, byte)

unfoldable pub read_rbr : Uart16550 → Uart16550 × ℕ
read_rbr u = pop_front (del_interrupt u iir_rda_bit) u.in_buffer

unfoldable pub read : Uart16550 → ℕ → Uart16550 × ℕ
read u offset =
    if offset == data_offset
    then (if is_dlab_set u then (u, u.baud_divisor_low) else read_rbr u)
    else (if offset == ier_offset
        then (u, if is_dlab_set u then u.baud_divisor_high else u.interrupt_enable)
        else (if offset == iir_offset
            then (reset_iir u, bit_or u.interrupt_identification iir_fifo_bits)
            else (
              u,
              if offset == lcr_offset
                  then u.line_control
                  else (if offset == mcr_offset
                      then u.modem_control
                      else (if offset == lsr_offset
                          then u.line_status
                          else (if offset == msr_offset
                              then u.modem_status
                              else (if offset == scr_offset then u.scratch else 0)))),
            )))

-- A write to the data register with DLAB clear.
unfoldable pub write_thr : Uart16550 → ℕ → Uart16550
write_thr u value =
    if is_in_loop_mode u
    then (if ltb (length u.in_buffer) fifo_size
        then received_data_interrupt
            (set_lsr_rda_bit (record u { in_buffer = u.in_buffer ++ value ∷ [] }))
        else u)
    else thr_empty_interrupt (record u { output = value ∷ u.output })

unfoldable pub write : Uart16550 → ℕ → ℕ → Uart16550
write u offset value =
    if offset == data_offset
    then (if is_dlab_set u then record u { baud_divisor_low = value } else write_thr u value)
    else (if offset == ier_offset
        then (if is_dlab_set u
            then record u { baud_divisor_high = value }
            else record u { interrupt_enable = bit_and value ier_valid_bits })
        else (if offset == lcr_offset
            then record u { line_control = value }
            else (if offset == mcr_offset
                then record u { modem_control = value }
                else (if offset == scr_offset then record u { scratch = value } else u))))

-- The part of `enqueue_raw_bytes` behind its checks, with room for `capacity` bytes.
unfoldable pub enqueue : Uart16550 → ℕ → List ℕ → Uart16550 × Option ℕ
enqueue u capacity input =
    let count = min capacity (length input) in
    (
      received_data_interrupt
          (set_lsr_rda_bit (record u { in_buffer = u.in_buffer ++ take count input })),
      some count,
    )

unfoldable pub enqueue_raw_bytes : Uart16550 → List ℕ → Uart16550 × Option ℕ
enqueue_raw_bytes u input =
    let capacity = fifo_size - length u.in_buffer in
    if is_in_loop_mode u
    then (u, some 0)
    else (if length input == 0
        then (u, some 0)
        else (if capacity == 0 then (u, none) else enqueue u capacity input))

unfoldable pub enqueue_rx : Uart16550 → ℕ → Uart16550
enqueue_rx u byte = (enqueue_raw_bytes u (byte ∷ [])).0

unfoldable pub fifo_capacity : Uart16550 → ℕ
fifo_capacity u = fifo_size - length u.in_buffer
