-- ===== src/Pl011/Registers.antt =====
-- What the registers of pl011.rs hold after any writes.
use visor.Prelude.{
  ℕ, ◌%◌, Bool, true, false, append-nil, ◌≡◌, refl, sym, ap, ◌∙◌, bit_and, List, [], ◌∷◌, ◌++◌,
  ◌==◌, if◌then◌else◌, arith, append_assoc,
}
use visor.Prelude.Bits.{and_zero, and_low_mask}
use visor.Prelude.BitSets.{and_comm}
use visor.Prelude.Bytes.{not_u32}
use visor.Pl011.{Pl011, new, read_register, write_register}

-- Writes of values to offsets, oldest first.
unfoldable pub run : Pl011 → List (ℕ × ℕ) → Pl011
run u [] = u
run u ((offset, value) ∷ writes) = run (write_register u offset value) writes

-- The bytes that go to the output: the lowest byte of each write to the data register.
unfoldable pub sent : List (ℕ × ℕ) → List ℕ
sent [] = []
sent ((offset, value) ∷ writes) =
    let rest = sent writes in if offset == 0 then bit_and value 0xFF ∷ rest else rest

-- The last value written to a register, or the value that it had before.
unfoldable pub last_written : ℕ → ℕ → List (ℕ × ℕ) → ℕ
last_written register held [] = held
last_written register held ((offset, value) ∷ writes) =
    last_written register (if offset == register then value else held) writes

write-output :
    (u : Pl011) (offset value : ℕ)
    → (write_register u offset value).output
      ≡ (if offset == 0 then u.output ++ bit_and value 0xFF ∷ [] else u.output)
unfolding write_register
write-output u offset value = ground arith

put_last :
    (b : Bool) (xs ys : List ℕ) (y : ℕ)
    → (if b then xs ++ y ∷ [] else xs) ++ ys ≡ xs ++ (if b then y ∷ ys else ys)
put_last true xs ys y = append_assoc xs (y ∷ []) ys
put_last false xs ys y = refl

run-output : (writes : List (ℕ × ℕ)) (u : Pl011) → (run u writes).output ≡ u.output ++ sent writes
unfolding run sent
run-output [] u = sym (append-nil u.output)
run-output ((offset, value) ∷ writes) u =
    run-output writes (write_register u offset value)
    ∙ ap (λ (o : List ℕ). o ++ sent writes) (write-output u offset value)
    ∙ put_last (offset == 0) u.output (sent writes) (bit_and value 0xFF)

-- The stored registers, by the values that were written: the fractional divisor keeps six bits, and the raw
-- interrupt status is never set.
Holds : Pl011 → ℕ → ℕ → ℕ → ℕ → ℕ → ℕ → Type 0
Holds u control line_control int_baud frac_baud int_mask ifls =
    (u.control ≡ control)
    × (u.line_control ≡ line_control)
    × (u.int_baud ≡ int_baud)
    × (u.frac_baud ≡ bit_and frac_baud 0x3F)
    × (u.int_mask ≡ int_mask)
    × (u.ifls ≡ ifls)
    × (u.raw_int_status ≡ 0)

zero_and : (a : ℕ) → bit_and 0 a ≡ 0
zero_and a = and_comm 0 a ∙ and_zero a

write-Holds :
    (u : Pl011) (offset value control line_control int_baud frac_baud int_mask ifls : ℕ)
    → Holds u control line_control int_baud frac_baud int_mask ifls
    → Holds
        (write_register u offset value)
        (if offset == 0x30 then value else control)
        (if offset == 0x2C then value else line_control)
        (if offset == 0x24 then value else int_baud)
        (if offset == 0x28 then value else frac_baud)
        (if offset == 0x38 then value else int_mask)
        (if offset == 0x34 then value else ifls)
unfolding write_register Holds
write-Holds u offset value control line_control int_baud frac_baud int_mask ifls
      (c, l, i, f, m, t, r) =
    ground (arith, c, l, i, f, m, t, r, zero_and (not_u32 value))

run-Holds :
    (writes : List (ℕ × ℕ)) (u : Pl011) (control line_control int_baud frac_baud int_mask ifls : ℕ)
    → Holds u control line_control int_baud frac_baud int_mask ifls
    → Holds
        (run u writes)
        (last_written 0x30 control writes)
        (last_written 0x2C line_control writes)
        (last_written 0x24 int_baud writes)
        (last_written 0x28 frac_baud writes)
        (last_written 0x38 int_mask writes)
        (last_written 0x34 ifls writes)
unfolding run last_written
run-Holds [] u control line_control int_baud frac_baud int_mask ifls h = h
run-Holds ((offset, value) ∷ writes) u control line_control int_baud frac_baud int_mask ifls h =
    run-Holds writes (write_register u offset value) _ _ _ _ _ _
      (write-Holds u offset value control line_control int_baud frac_baud int_mask ifls h)

-- After any writes to a new device: the output is the lowest bytes of the writes to the data register in
-- their order, each stored register reads as the last value that was written to it, the fractional divisor
-- with its six lowest bits, and no interrupt is ever pending.
pub run-registers :
    (writes : List (ℕ × ℕ))
    → ((run new writes).output ≡ sent writes)
      × (read_register (run new writes) 0x30 ≡ last_written 0x30 0x300 writes)
      × (read_register (run new writes) 0x2C ≡ last_written 0x2C 0 writes)
      × (read_register (run new writes) 0x24 ≡ last_written 0x24 0 writes)
      × (read_register (run new writes) 0x28 ≡ last_written 0x28 0 writes % 64)
      × (read_register (run new writes) 0x38 ≡ last_written 0x38 0 writes)
      × (read_register (run new writes) 0x34 ≡ last_written 0x34 0x12 writes)
      × (read_register (run new writes) 0x3C ≡ 0)
      × (read_register (run new writes) 0x40 ≡ 0)
unfolding read_register new Holds
run-registers writes =
    let (c, l, i, f, m, t, r) =
      run-Holds writes new 0x300 0 0 0 0 0x12 (refl, refl, refl, refl, refl, refl, refl) in
    (
      run-output writes new,
      c,
      l,
      i,
      f ∙ and_low_mask 6 (last_written 0x28 0 writes),
      m,
      t,
      r,
      rw r (zero_and (run new writes).int_mask),
    )
