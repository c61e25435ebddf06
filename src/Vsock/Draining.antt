-- ===== src/Vsock/Draining.antt =====
-- What a flush of the ring of vsock.rs does, for a sink that takes the front of each slice or fails.
use visor.Prelude.{
  ℕ, zero, suc, ◌+◌, ◌%◌, ◌≤◌, ◌≡◌, refl, sym, ap, ◌∙◌, List, ◌++◌, Option, none, some, Result, ok,
  err, length, ltb, if_cases, take, drop, arith, append_assoc, subst,
}
use visor.Vsock.TxBuf.{
  TxBuf, VsockError, Sink, conn_tx_buf_size, wrapping_add, len, is_empty, or_zeroed, flush_stored,
  flush_to, flush_written, written,
}
use visor.Vsock.Fifo.{content, IsTxBuf, or_zeroed-some}
use visor.Vsock.Flush.{
  Enough, first_len, first_slice, length-first_slice, content-written, IsTxBuf-written,
  Enough-written, len_after_write,
}

module _ {S : Type 0} (got : S → List ℕ) where
  -- The sink keeps the front of the slice and counts it, or fails and keeps nothing.
  abbrev pub Wrote : List ℕ → S → Result {0, 0} ℕ VsockError × S → Type 0
  Wrote bytes s (ok n, s') = (n ≤ length bytes) × (got s' ≡ got s ++ take n bytes)
  Wrote bytes s (err e, s') = got s' ≡ got s

  abbrev pub IsWriter : Sink S → Type 0
  IsWriter sink = (bytes : List ℕ) (s : S) → Wrote bytes s (sink.write bytes s)

  -- How many bytes are reported.
  abbrev pub Counted : TxBuf → TxBuf → Result {0, 0} ℕ VsockError → Type 0
  Counted b b' (ok n) = n + len b' ≡ len b
  Counted b b' (err e) = (e ≡ VsockError.tx_buf_flush) × (len b' ≡ len b)

  abbrev pub Flushed : TxBuf → S → Option (Result {0, 0} ℕ VsockError × TxBuf × S) → Type 0
  Flushed b s none = ⊥
  Flushed b s (some (result, b', s')) =
      IsTxBuf b' × ((got s' ++ content b' ≡ got s ++ content b) × Counted b b' result)

  -- The rest of the flush behind a write.
  written-Flushed :
      (b : TxBuf) (s : S) (n : ℕ) (b₁ : TxBuf) (s₁ : S)
      → got s₁ ++ content b₁ ≡ got s ++ content b
      → n + len b₁ ≡ len b
      → (sink : Sink S) → (rest : Option (Result {0, 0} ℕ VsockError × TxBuf × S))
      → Flushed b₁ s₁ rest
      → Flushed b s (written sink n rest)
  unfolding written
  written-Flushed b s n b₁ s₁ moved count sink none h = h
  written-Flushed b s n b₁ s₁ moved count sink (some (ok more, b₂, s₂)) (inv, (eq, c)) =
      (inv, (eq ∙ moved, omega (arith, count, c)))
  written-Flushed b s n b₁ s₁ moved count sink (some (err e, b₂, s₂)) (inv, (eq, (_, c))) =
      (inv, (eq ∙ moved, omega (arith, count, c)))

  module _ (sink : Sink S) (is_writer : IsWriter sink) where
    -- The flush with less fuel.
    abbrev Again : ℕ → Type 0
    Again fuel =
        (b : TxBuf) (s : S) → IsTxBuf b → Enough fuel b → Flushed b s (flush_to sink fuel b s)

    flush_written-Flushed :
        (fuel : ℕ) (b : TxBuf) (s : S) (r : Result {0, 0} ℕ VsockError × S)
        → Wrote (first_slice b) s r
        → IsTxBuf b
        → Enough (suc fuel) b
        → Again fuel
        → Flushed b s (flush_written sink (flush_to sink fuel) (first_len b) b r)
    unfolding flush_written
    flush_written-Flushed fuel b s (err e, s') kept inv enough again =
        (inv, (ap (λ (t : List ℕ). t ++ content b) kept, (refl, refl)))
    flush_written-Flushed fuel b s (ok n, s') (few, kept) inv enough again =
        let b' = record b { tail = wrapping_add b.tail n } in
        let fits : n ≤ first_len b = rw (length-first_slice b inv) at few in
        let inv' = IsTxBuf-written b n inv fits in
        let less =
          len_after_write b.head b.tail n inv.head_fits inv.tail_fits (omega (arith, fits)) in
        let count : n + len b' ≡ len b = rw less (omega (arith, fits)) in
        let moved : got s' ++ content b' ≡ got s ++ content b =
          ap (λ (t : List ℕ). t ++ content b') kept
          ∙ append_assoc (got s) (take n (first_slice b)) (content b')
          ∙ ap (◌++◌ (got s)) (content-written b n inv fits) in
        if_cases (Flushed b s) (ltb n (first_len b)) (λ partial. (inv', (moved, count)))
          (λ whole.
            let all : first_len b ≡ n = ground (arith, whole, fits) in
            let enough' : Enough fuel b' = rw all at (Enough-written fuel b inv enough) in
            written-Flushed b s n b' s' moved count sink (flush_to sink fuel b' s')
              (again b' s' inv' enough'))

    storage-Flushed :
        (fuel : ℕ) (b : TxBuf) (s : S) (storage : Option (List ℕ))
        → b.storage ≡ storage
        → IsTxBuf b
        → Enough (suc fuel) b
        → Again fuel
        → Flushed b s (elim storage [
          | none ↦ some (ok 0, b, s)
          | some stored ↦ flush_stored sink (flush_to sink fuel) stored b s
        ])
    unfolding flush_stored
    storage-Flushed fuel b s none at inv enough again = (inv, (refl, omega arith))
    storage-Flushed fuel b s (some stored) at inv enough again =
        let slice = take (first_len b) (drop (b.tail % conn_tx_buf_size) stored) in
        let same : slice ≡ first_slice b =
          ap (λ (t : List ℕ). take (first_len b) (drop (b.tail % conn_tx_buf_size) t))
            (sym (ap or_zeroed at ∙ or_zeroed-some stored)) in
        let kept : Wrote (first_slice b) s (sink.write slice s) =
          subst (λ (t : List ℕ). Wrote t s (sink.write slice s)) same (is_writer slice s) in
        flush_written-Flushed fuel b s (sink.write slice s) kept inv enough again

    -- With fuel for two writes, or less where less is enough, a flush of a well-formed ring ends.
    pub flush_to-Flushed :
        (fuel : ℕ) (b : TxBuf) (s : S)
        → IsTxBuf b
        → Enough fuel b
        → Flushed b s (flush_to sink fuel b s)
    unfolding flush_to
    flush_to-Flushed zero b s inv enough =
        if_cases (Flushed b s) (is_empty b) (λ e. (inv, (refl, omega arith)))
          (λ ne. ground (arith, ne, enough))
    flush_to-Flushed (suc fuel) b s inv enough =
        if_cases (Flushed b s) (is_empty b) (λ e. (inv, (refl, omega arith)))
          (λ ne. storage-Flushed fuel b s b.storage refl inv enough (flush_to-Flushed fuel))
