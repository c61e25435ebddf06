-- ===== src/Vsock/Fifo.antt =====
-- The ring of vsock.rs is a queue: what is pushed goes to its end, and what is flushed comes from its front.
use visor.Prelude.{
  ℕ, zero, suc, ◌+◌, ◌-◌, ◌%◌, ◌^◌, ◌≤◌, ◌<◌, ◌≡◌, refl, ap, ◌∙◌, List, ◌++◌, some, Result, ok, err,
  length, ltb, ltb→lt, if_cases, take, drop, min, arith,
}
use visor.Prelude.Bytes.{copy_at, length-copy_at}
use visor.Vsock.TxBuf
use visor.Vsock.TxBuf.{
  TxBuf, VsockError, Sink, conn_tx_buf_size, wrapping_add, wrapping_sub, len, is_empty, zeroed,
  or_zeroed, copy_wrapped, push, flush_stored, flush_to, written,
}
use visor.Vsock.Window.{
  window, length-window, window-same, window-src, window-append, byte_at-copied, byte_at-kept,
}

-- The bytes that are waiting, the oldest first.
unfoldable pub content : TxBuf → List ℕ
content b = window (or_zeroed b.storage) b.tail (len b)

pub record IsTxBuf (b : TxBuf) : Type 0 where
  pub head_fits : b.head < 2 ^ 32
  pub tail_fits : b.tail < 2 ^ 32
  pub len_fits : len b ≤ conn_tx_buf_size
  pub storage_full : length (or_zeroed b.storage) ≡ conn_tx_buf_size

length-zeroed : (n : ℕ) → length (zeroed n) ≡ n
unfolding zeroed
length-zeroed zero = refl
length-zeroed (suc n) = ap suc (length-zeroed n)

pub new-IsTxBuf : IsTxBuf TxBuf.new
unfolding TxBuf.new or_zeroed
new-IsTxBuf = record {
  head_fits = omega arith;
  tail_fits = omega arith;
  len_fits = omega arith;
  storage_full = length-zeroed conn_tx_buf_size;
}

length-copy_wrapped :
    (xs : List ℕ) (ofs : ℕ) (src : List ℕ) → length (copy_wrapped xs ofs src) ≡ length xs
unfolding copy_wrapped
length-copy_wrapped xs ofs src =
    let n = min (conn_tx_buf_size - ofs) (length src) in
    length-copy_at (copy_at xs ofs (take n src)) 0 (drop n src) ∙ length-copy_at xs ofs (take n src)

-- A bounded queue of bytes.
abbrev pub Pushed : List ℕ → TxBuf → Result {0, 0} TxBuf VsockError → Type 0
Pushed src b (ok b') =
    (length (content b) + length src ≤ conn_tx_buf_size)
    × (IsTxBuf b' × (content b' ≡ content b ++ src))
Pushed src b (err e) =
    (conn_tx_buf_size < length (content b) + length src) × (e ≡ VsockError.tx_buf_full)

pub length-content : (b : TxBuf) → length (content b) ≡ len b
unfolding content
length-content b = length-window (or_zeroed b.storage) b.tail (len b)

len_after_push :
    (head tail n : ℕ)
    → head < 2 ^ 32
    → tail < 2 ^ 32
    → wrapping_sub head tail + n ≤ conn_tx_buf_size
    → wrapping_sub (wrapping_add head n) tail ≡ wrapping_sub head tail + n
len_after_push head tail n h t fits = omega (arith, h, t, fits)

kept_position :
    (head tail n i : ℕ)
    → head < 2 ^ 32
    → tail < 2 ^ 32
    → wrapping_sub head tail + n ≤ conn_tx_buf_size
    → i < wrapping_sub head tail
    → n
      ≤ ((tail + i) % conn_tx_buf_size + conn_tx_buf_size - head % conn_tx_buf_size)
        % conn_tx_buf_size
kept_position head tail n i h t fits lt = omega (arith, h, t, fits, lt)

copied_position :
    (head tail i : ℕ)
    → head < 2 ^ 32
    → tail < 2 ^ 32
    → (tail + wrapping_sub head tail + i) % conn_tx_buf_size
      ≡ (head % conn_tx_buf_size + i) % conn_tx_buf_size
copied_position head tail i h t = omega (arith, h, t)

pub or_zeroed-some : (storage : List ℕ) → or_zeroed (some storage) ≡ storage
unfolding or_zeroed
or_zeroed-some storage = refl

mod_below : (n : ℕ) → n % conn_tx_buf_size < conn_tx_buf_size
mod_below n = omega arith

content-push :
    (b : TxBuf) (src : List ℕ)
    → IsTxBuf b
    → len b + length src ≤ conn_tx_buf_size
    → (b' : TxBuf)
    → b'.storage ≡ some (copy_wrapped (or_zeroed b.storage) (b.head % conn_tx_buf_size) src)
    → b'.tail ≡ b.tail
    → len b' ≡ len b + length src
    → content b' ≡ content b ++ src
unfolding content
content-push b src inv fits b' at tail_same longer =
    let storage = or_zeroed b.storage in
    let ofs = b.head % conn_tx_buf_size in
    let inside = mod_below b.head in
    let after = copy_wrapped storage ofs src in
    let same_storage : or_zeroed b'.storage ≡ after = ap or_zeroed at ∙ or_zeroed-some after in
    let old : window after b.tail (len b) ≡ window storage b.tail (len b) =
      window-same (len b) b.tail b.tail after storage (λ i lt.
        byte_at-kept storage ofs src ((b.tail + i) % conn_tx_buf_size) inside
          (kept_position b.head b.tail (length src) i inv.head_fits inv.tail_fits fits lt)
          (mod_below (b.tail + i))) in
    let fresh : window after (b.tail + len b) (length src) ≡ src =
      window-src src (b.tail + len b) after (λ i lt.
        rw (copied_position b.head b.tail i inv.head_fits inv.tail_fits)
          (byte_at-copied storage ofs src i inv.storage_full inside (omega (arith, fits)) lt)) in
    rw (same_storage, longer, tail_same)
      (window-append (len b) (length src) b.tail after ∙ (λ k. old k ++ fresh k))

-- A push of a well-formed ring takes the whole slice to the end of the queue and leaves a well-formed ring
-- when the capacity allows it, and otherwise fails with the error of a full buffer.
pub push-Pushed : (src : List ℕ) (b : TxBuf) → IsTxBuf b → Pushed src b (push b src)
unfolding push
push-Pushed src b inv =
    let stored = length-content b in
    if_cases (Pushed src b) (ltb conn_tx_buf_size (len b + length src))
      (λ full. (rw stored (ltb→lt conn_tx_buf_size (len b + length src) full), refl))
      (λ room.
        let fits : len b + length src ≤ conn_tx_buf_size = ground (arith, room) in
        let longer = len_after_push b.head b.tail (length src) inv.head_fits inv.tail_fits fits in
        let ofs = b.head % conn_tx_buf_size in
        let b' : TxBuf = record {
          storage = some (copy_wrapped (or_zeroed b.storage) ofs src);
          head = wrapping_add b.head (length src);
          tail = b.tail;
        } in
        (
          rw stored fits,
          (
            record {
              head_fits = omega arith;
              tail_fits = inv.tail_fits;
              len_fits = rw longer fits;
              storage_full =
                  ap length (or_zeroed-some (copy_wrapped (or_zeroed b.storage) ofs src))
                  ∙ length-copy_wrapped (or_zeroed b.storage) ofs src
                  ∙ inv.storage_full;
            },
            content-push b src inv fits b' refl refl longer,
          ),
        ))
