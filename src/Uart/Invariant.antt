-- ===== src/Uart/Invariant.antt =====
-- What holds of the UART of devices/uart.rs between two accesses.
use visor.Prelude.{
  ℕ, ◌+◌, ◌-◌, ◌≤◌, ◌<◌, ◌≡◌, refl, sym, ap, subst, ◌∙◌, min, bit_and, bit_or, ◌⊎◌, inl, inr, List,
  [], ◌∷◌, ◌++◌, length, length-append, length-take, take, arith, ◌==◌, if◌then◌else◌,
}
use visor.Uart.{
  Uart16550, add_interrupt, new, read, write, enqueue_raw_bytes, enqueue, received_data_interrupt,
  thr_empty_interrupt, set_lsr_rda_bit, clear_lsr_rda_bit, del_interrupt, pop_front, read_rbr,
  write_thr, reset_iir,
}

-- Pending interrupts: none, THR empty, received data, or both; the NONE bit stands alone.
abbrev pub IsPending : ℕ → Type 0
IsPending iir = (iir ≡ 1) ⊎ (iir ≡ 2) ⊎ (iir ≡ 4) ⊎ (iir ≡ 6)

-- The Data Ready bit of LSR follows the buffer; the two transmitter bits are always set.
abbrev pub status_for : List ℕ → ℕ
status_for [] = 0x60
status_for (byte ∷ rest) = 0x61

-- Received data is pending only if there is some.
abbrev pub IsBacked : ℕ → List ℕ → Type 0
IsBacked iir buffer = (bit_and iir 4 ≡ 0) ⊎ (0 < length buffer)

pub record Inv (u : Uart16550) : Type 0 where
  pub fits : length u.in_buffer ≤ 64
  pub ready : u.line_status ≡ status_for u.in_buffer
  pub pending : IsPending u.interrupt_identification
  pub backed : IsBacked u.interrupt_identification u.in_buffer

pub new-Inv : Inv new
unfolding new
new-Inv = record { fits = omega arith; ready = refl; pending = omega arith; backed = inl refl }

pending_cases : (P : ℕ → Type 0) (iir : ℕ) → IsPending iir → P 1 → P 2 → P 4 → P 6 → P iir
pending_cases P iir p one two four six = elim p [
  | inl e ↦ subst P (sym e) one
  | inr q ↦ elim q [
    | inl e ↦ subst P (sym e) two
    | inr r ↦ elim r [ inl e ↦ subst P (sym e) four | inr e ↦ subst P (sym e) six ]
  ]
]

add_thr-IsPending : (iir : ℕ) → IsPending iir → IsPending (bit_or (bit_and iir 254) 2)
add_thr-IsPending iir p =
    pending_cases (λ x. IsPending (bit_or (bit_and x 254) 2)) iir p (omega arith) (omega arith)
      (omega arith) (omega arith)

add_thr-IsBacked :
    (iir : ℕ) (buffer : List ℕ)
    → IsPending iir
    → IsBacked iir buffer
    → IsBacked (bit_or (bit_and iir 254) 2) buffer
add_thr-IsBacked iir buffer p b = elim b [
  | inl no_data ↦ inl (
      pending_cases (λ x. bit_and x 4 ≡ 0 → bit_and (bit_or (bit_and x 254) 2) 4 ≡ 0) iir p
        (λ h. refl) (λ h. refl) (λ h. absurd (omega (arith, h))) (λ h. absurd (omega (arith, h)))
        no_data)
  | inr some_data ↦ inr some_data
]

add_rda-IsPending : (iir : ℕ) → IsPending iir → IsPending (bit_or (bit_and iir 254) 4)
add_rda-IsPending iir p =
    pending_cases (λ x. IsPending (bit_or (bit_and x 254) 4)) iir p (omega arith) (omega arith)
      (omega arith) (omega arith)

del_rda-IsPending :
    (iir : ℕ) → IsPending iir → IsPending (if bit_and iir 251 == 0 then 1 else bit_and iir 251)
del_rda-IsPending iir p =
    pending_cases (λ x. IsPending (if bit_and x 251 == 0 then 1 else bit_and x 251)) iir p
      (omega arith) (omega arith) (omega arith) (omega arith)

del_rda-none :
    (iir : ℕ) → IsPending iir → bit_and (if bit_and iir 251 == 0 then 1 else bit_and iir 251) 4 ≡ 0
del_rda-none iir p =
    pending_cases (λ x. bit_and (if bit_and x 251 == 0 then 1 else bit_and x 251) 4 ≡ 0) iir p refl
      refl refl refl

set_status : (status : ℕ) (buffer : List ℕ) → status ≡ status_for buffer → bit_or status 1 ≡ 0x61
set_status status [] e = rw e
set_status status (byte ∷ rest) e = rw e

clear_status :
    (status : ℕ) (buffer : List ℕ) → status ≡ status_for buffer → bit_and status 254 ≡ 0x60
clear_status status [] e = rw e
clear_status status (byte ∷ rest) e = rw e

status_for_append : (xs ys : List ℕ) → 0 < length ys → status_for (xs ++ ys) ≡ 0x61
status_for_append [] [] h = absurd (omega arith)
status_for_append [] (y ∷ ys) h = refl
status_for_append (x ∷ xs) ys h = refl

pub received-Inv :
    (u : Uart16550) → 0 < length u.in_buffer → Inv u → Inv (received_data_interrupt u)
unfolding received_data_interrupt add_interrupt
received-Inv u some_data v = ground (arith, add_rda-IsPending u.interrupt_identification v.pending)

pub thr-Inv : (u : Uart16550) → Inv u → Inv (thr_empty_interrupt u)
unfolding thr_empty_interrupt add_interrupt
thr-Inv u v = ground (
  arith,
  add_thr-IsPending u.interrupt_identification v.pending,
  add_thr-IsBacked u.interrupt_identification u.in_buffer v.pending v.backed,
)

-- New bytes in the buffer, and the bit that says so.
pub push-Inv :
    (u : Uart16550) (bytes : List ℕ)
    → Inv u
    → 0 < length bytes
    → length u.in_buffer + length bytes ≤ 64
    → Inv
        (received_data_interrupt (set_lsr_rda_bit (record u { in_buffer = u.in_buffer ++ bytes })))
push-Inv u bytes v some_bytes room =
    let more = length-append u.in_buffer bytes in
    received-Inv _ (unfold set_lsr_rda_bit in omega (arith, more, some_bytes)) (
      unfold set_lsr_rda_bit in
      record {
        backed = inr (omega (arith, more, some_bytes));
        fits = omega (arith, length-append u.in_buffer bytes);
        ready =
            set_status u.line_status u.in_buffer v.ready
            ∙ sym (status_for_append u.in_buffer bytes some_bytes);
        pending = v.pending;
      })

pop_front-Inv :
    (u : Uart16550) (buffer : List ℕ)
    → u.in_buffer ≡ buffer
    → bit_and u.interrupt_identification 4 ≡ 0
    → Inv u
    → Inv (pop_front u buffer).0
unfolding pop_front clear_lsr_rda_bit
pop_front-Inv u [] e told v = record {
  fits = v.fits;
  ready = clear_status u.line_status u.in_buffer v.ready ∙ rw e;
  pending = v.pending;
  backed = inl told;
}
pop_front-Inv u (byte ∷ []) e told v = record {
  fits = omega arith;
  ready = clear_status u.line_status u.in_buffer v.ready;
  pending = v.pending;
  backed = inl told;
}
pop_front-Inv u (byte ∷ next ∷ rest) e told v = record {
  fits = let shorter = ap length e in omega (arith, v.fits, shorter);
  ready = v.ready ∙ ap status_for e;
  pending = v.pending;
  backed = inl told;
}

read_rbr-Inv : (u : Uart16550) → Inv u → Inv (read_rbr u).0
unfolding read_rbr
read_rbr-Inv u v =
    let none = del_rda-none u.interrupt_identification v.pending in
    pop_front-Inv (del_interrupt u 4) u.in_buffer (unfold del_interrupt in refl)
      (unfold del_interrupt in none)
      (unfold del_interrupt in
        record {
          fits = v.fits;
          ready = v.ready;
          pending = del_rda-IsPending u.interrupt_identification v.pending;
          backed = inl none;
        })

pub read-Inv : (u : Uart16550) (offset : ℕ) → Inv u → Inv (read u offset).0
unfolding read reset_iir
read-Inv u offset v = ground (arith, read_rbr-Inv u v)

write_thr-Inv : (u : Uart16550) (value : ℕ) → Inv u → Inv (write_thr u value)
unfolding write_thr
write_thr-Inv u value v = ground (
  arith,
  thr-Inv (record u { output = value ∷ u.output })
      (record { fits = v.fits; ready = v.ready; pending = v.pending; backed = v.backed }),
  push-Inv u (value ∷ []) v (omega arith),
)

pub write-Inv : (u : Uart16550) (offset value : ℕ) → Inv u → Inv (write u offset value)
unfolding write
write-Inv u offset value v = ground (arith, write_thr-Inv u value v)

length-take-min : (n : ℕ) (xs : List ℕ) → length (take (min n (length xs)) xs) ≡ min n (length xs)
length-take-min n xs = length-take (min n (length xs)) xs (omega arith)

pub enqueue-Inv : (u : Uart16550) (input : List ℕ) → Inv u → Inv (enqueue_raw_bytes u input).0
unfolding enqueue_raw_bytes enqueue
enqueue-Inv u input v =
    let room = 64 - length u.in_buffer in
    ground (arith, length-take-min room input, push-Inv u (take (min room (length input)) input) v)

-- What the guest and the host do with a UART.
pub data Access : Type 0 where
  reads : (offset : ℕ) → Access
  writes : (offset value : ℕ) → Access
  inputs : (bytes : List ℕ) → Access

unfoldable pub step : Uart16550 → Access → Uart16550
step u (reads offset) = (read u offset).0
step u (writes offset value) = write u offset value
step u (inputs bytes) = (enqueue_raw_bytes u bytes).0

unfoldable pub run : Uart16550 → List Access → Uart16550
run u [] = u
run u (a ∷ rest) = run (step u a) rest

step-Inv : (u : Uart16550) (a : Access) → Inv u → Inv (step u a)
unfolding step
step-Inv u (reads offset) v = read-Inv u offset v
step-Inv u (writes offset value) v = write-Inv u offset value v
step-Inv u (inputs bytes) v = enqueue-Inv u bytes v

accesses-Inv_from : (u : Uart16550) (accesses : List Access) → Inv u → Inv (run u accesses)
unfolding run
accesses-Inv_from u [] v = v
accesses-Inv_from u (a ∷ rest) v = accesses-Inv_from (step u a) rest (step-Inv u a v)

-- After any accesses the FIFO holds at most 64 bytes, the Data Ready bit is set exactly if it holds one,
-- the transmitter reads as empty and idle, the NONE bit of IIR is set exactly if no other is, and received
-- data is pending in IIR only if the FIFO holds some.
pub accesses-Inv : (accesses : List Access) → Inv (run new accesses)
accesses-Inv accesses = accesses-Inv_from new accesses new-Inv
