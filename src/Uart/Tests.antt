-- ===== src/Uart/Tests.antt =====
-- Runs of the UART of devices/uart.rs at fixed inputs.
use visor.Prelude.{◌≡◌, refl, [], ◌∷◌}
use visor.Uart.{
  Uart16550, new, set_lsr_rda_bit, write, received_data_interrupt, add_interrupt, enqueue_raw_bytes,
  enqueue, is_dlab_set, is_in_loop_mode, is_rda_interrupt_enabled,
}
use visor.Uart.Invariant.{Inv, reads, writes, inputs, step, run, accesses-Inv}

abbrev waiting : Uart16550
waiting = (enqueue_raw_bytes new (7 ∷ 8 ∷ [])).0

abbrev looped : Uart16550
looped = record new { modem_control = 0x18 }

accesses-Inv_example : Inv (
    run new
      (inputs (7 ∷ 8 ∷ []) ∷ writes 1 1 ∷ writes 4 0x10 ∷ writes 0 9 ∷ reads 0 ∷ reads 2 ∷ []))
accesses-Inv_example =
    accesses-Inv
      (inputs (7 ∷ 8 ∷ []) ∷ writes 1 1 ∷ writes 4 0x10 ∷ writes 0 9 ∷ reads 0 ∷ reads 2 ∷ [])

-- The receive interrupt is raised once while it is pending.
one_interrupt : (run new (writes 1 1 ∷ inputs (7 ∷ []) ∷ inputs (8 ∷ []) ∷ [])).interrupts ≡ 1
unfolding new write enqueue_raw_bytes enqueue is_dlab_set is_in_loop_mode received_data_interrupt
    add_interrupt set_lsr_rda_bit is_rda_interrupt_enabled step run
one_interrupt = refl
