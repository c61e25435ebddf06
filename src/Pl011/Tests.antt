-- ===== src/Pl011/Tests.antt =====
-- Runs of pl011.rs.
use visor.Prelude.{ℕ, ◌%◌, ◌≡◌, refl, List, [], ◌∷◌}
use visor.Pl011.{new, read_register, write, write_register}
use visor.Pl011.Registers.{run, sent, last_written, run-registers}

-- Two bytes to the output, a divisor and a clear of all interrupts.
abbrev four_writes : List (ℕ × ℕ)
four_writes = (0, 0x141) ∷ (0x28, 0x7F) ∷ (0x44, 0x7FF) ∷ (0, 0x42) ∷ []

output_bytes : sent four_writes ≡ 0x41 ∷ 0x42 ∷ []
unfolding sent
output_bytes = refl

-- A write of one byte is one of its value.
one_byte : (write new 0 (0x41 ∷ [])).output ≡ 0x41 ∷ []
unfolding write write_register new visor.Prelude.Bytes.from_le_bytes
one_byte = refl

run-registers_example :
    ((run new four_writes).output ≡ sent four_writes)
    × (read_register (run new four_writes) 0x30 ≡ last_written 0x30 0x300 four_writes)
    × (read_register (run new four_writes) 0x2C ≡ last_written 0x2C 0 four_writes)
    × (read_register (run new four_writes) 0x24 ≡ last_written 0x24 0 four_writes)
    × (read_register (run new four_writes) 0x28 ≡ last_written 0x28 0 four_writes % 64)
    × (read_register (run new four_writes) 0x38 ≡ last_written 0x38 0 four_writes)
    × (read_register (run new four_writes) 0x34 ≡ last_written 0x34 0x12 four_writes)
    × (read_register (run new four_writes) 0x3C ≡ 0)
    × (read_register (run new four_writes) 0x40 ≡ 0)
run-registers_example = run-registers four_writes
