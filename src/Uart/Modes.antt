-- ===== src/Uart/Modes.antt =====
-- The loopback mode of devices/uart.rs.
use visor.Prelude.{ℕ, ◌≡◌, true, false, [], ◌∷◌, arith, ◌∙◌}
use visor.Uart.Fifo.{read_next}
use visor.Uart.{
  Uart16550, read, set_lsr_rda_bit, write, write_thr, received_data_interrupt, add_interrupt,
  is_dlab_set, is_in_loop_mode,
}

loopback_write :
    (u : Uart16550) (value : ℕ)
    → is_in_loop_mode u ≡ true
    → is_dlab_set u ≡ false
    → u.in_buffer ≡ []
    → ((write u 0 value).in_buffer ≡ value ∷ [])
      × ((write u 0 value).output ≡ u.output)
      × (is_dlab_set (write u 0 value) ≡ is_dlab_set u)
unfolding write write_thr received_data_interrupt add_interrupt set_lsr_rda_bit is_dlab_set
loopback_write u value l d e = ground arith

-- In loopback mode a byte written to the data register of an empty FIFO is read back from it, and neither
-- the write nor the read sends anything to the output.
pub loopback_write-read :
    (u : Uart16550) (value : ℕ)
    → is_in_loop_mode u ≡ true
    → is_dlab_set u ≡ false
    → u.in_buffer ≡ []
    → ((read (write u 0 value) 0).1 ≡ value)
      × ((read (write u 0 value) 0).0.in_buffer ≡ [])
      × ((read (write u 0 value) 0).0.output ≡ u.output)
loopback_write-read u value l d e =
    let (buffer, sent, dlab) = loopback_write u value l d e in
    let (byte, empty, still, quiet) = read_next (write u 0 value) value [] (dlab ∙ d) buffer in
    (byte, empty, quiet ∙ sent)
