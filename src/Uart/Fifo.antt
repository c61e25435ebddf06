-- ===== src/Uart/Fifo.antt =====
-- The receive FIFO of devices/uart.rs: what the host enqueues is what the guest reads.
use visor.Prelude.{
  ℕ, zero, suc, ◌+◌, ◌-◌, ◌≤◌, ◌≡◌, refl, ap, subst, ◌∙◌, min, false, List, [], ◌∷◌, ◌++◌, none,
  some, length, length-append, take, take-length, arith, ◌==◌, if◌then◌else◌,
}
use visor.Uart.{
  Uart16550, read, read_rbr, pop_front, del_interrupt, clear_lsr_rda_bit, set_lsr_rda_bit,
  received_data_interrupt, add_interrupt, enqueue_raw_bytes, enqueue, is_dlab_set, is_in_loop_mode,
}
use visor.Uart.Invariant.{Inv, status_for, read-Inv, enqueue-Inv}

-- The guest reads the data register that many times.
unfoldable pub drain : ℕ → Uart16550 → Uart16550 × List ℕ
drain zero u = (u, [])
drain (suc n) u = let (u', byte) = read u 0 in let (u'', bytes) = drain n u' in (u'', byte ∷ bytes)

-- The next byte of the FIFO is the one the guest reads.
pub read_next :
    (u : Uart16550) (byte : ℕ) (rest : List ℕ)
    → is_dlab_set u ≡ false
    → u.in_buffer ≡ byte ∷ rest
    → ((read u 0).1 ≡ byte)
      × ((read u 0).0.in_buffer ≡ rest)
      × (is_dlab_set (read u 0).0 ≡ false)
      × ((read u 0).0.output ≡ u.output)
unfolding read read_rbr pop_front del_interrupt clear_lsr_rda_bit is_dlab_set
read_next u byte [] d e = ground arith
read_next u byte (next ∷ rest) d e = ground arith

drain_all :
    (u : Uart16550) (bytes : List ℕ)
    → is_dlab_set u ≡ false
    → u.in_buffer ≡ bytes
    → Inv u
    → ((drain (length bytes) u).1 ≡ bytes)
      × ((drain (length bytes) u).0.in_buffer ≡ [])
      × Inv (drain (length bytes) u).0
unfolding drain
drain_all u [] d e v = (refl, e, v)
drain_all u (byte ∷ rest) d e v =
    let (first, left, still, sent) = read_next u byte rest d e in
    let (more, empty, inv) = drain_all (read u 0).0 rest still left (read-Inv u 0 v) in
    (ground (arith, first, more), empty, inv)

take_none : (room : ℕ) → take {A = ℕ} (min room 0) [] ≡ []
take_none room =
    let none_left : min room 0 ≡ 0 = omega arith in ap (λ n. take {A = ℕ} n []) none_left

append-nil : (xs : List ℕ) → xs ++ [] ≡ xs
append-nil [] = refl
append-nil (x ∷ xs) = ap (λ t. x ∷ t) (append-nil xs)

-- What `enqueue_raw_bytes` does outside loopback mode: it takes as many bytes as there is room for,
-- behind those that are there, and says how many; a full FIFO refuses all, and says so.
pub enqueue_raw_bytes_lem :
    (u : Uart16550) (input : List ℕ)
    → is_in_loop_mode u ≡ false
    → length u.in_buffer ≤ 64
    → let room = 64 - length u.in_buffer in
      let (u', taken) = enqueue_raw_bytes u input in
      (u'.in_buffer ≡ u.in_buffer ++ take (min room (length input)) input)
      × (taken ≡ (
          if room == 0
          then (if length input == 0 then some 0 else none)
          else some (min room (length input))))
      × (is_dlab_set u' ≡ is_dlab_set u)
unfolding enqueue_raw_bytes enqueue received_data_interrupt set_lsr_rda_bit add_interrupt
    is_dlab_set
enqueue_raw_bytes_lem u [] l f =
    ground (arith, append-nil u.in_buffer, take_none (64 - length u.in_buffer))
enqueue_raw_bytes_lem u (x ∷ input) l f = ground (arith, append-nil u.in_buffer)

-- What the guest reads after the host enqueued what there was room for: the bytes that were there and
-- then the new ones, in their order, and then the FIFO is empty and the line status says so.
pub enqueue-drain :
    (u : Uart16550) (input : List ℕ)
    → Inv u
    → is_in_loop_mode u ≡ false
    → is_dlab_set u ≡ false
    → length u.in_buffer + length input ≤ 64
    → ((drain (length u.in_buffer + length input) (enqueue_raw_bytes u input).0).1
        ≡ u.in_buffer ++ input)
      × ((drain (length u.in_buffer + length input) (enqueue_raw_bytes u input).0).0.in_buffer ≡ [])
      × ((drain (length u.in_buffer + length input) (enqueue_raw_bytes u input).0).0.line_status
          ≡ 0x60)
enqueue-drain u input v l d room =
    let (buffer, taken, same) = enqueue_raw_bytes_lem u input l v.fits in
    let whole : min (64 - length u.in_buffer) (length input) ≡ length input = omega arith in
    let all = ap (λ n. take n input) whole ∙ take-length input in
    let (bytes, empty, inv) =
      drain_all (enqueue_raw_bytes u input).0 (u.in_buffer ++ input) (same ∙ d)
        (buffer ∙ ap (λ t. u.in_buffer ++ t) all) (enqueue-Inv u input v) in
    subst
      (λ n.
        ((drain n (enqueue_raw_bytes u input).0).1 ≡ u.in_buffer ++ input)
        × ((drain n (enqueue_raw_bytes u input).0).0.in_buffer ≡ [])
        × ((drain n (enqueue_raw_bytes u input).0).0.line_status ≡ 0x60))
      (length-append u.in_buffer input) (bytes, empty, inv.ready ∙ ap status_for empty)
