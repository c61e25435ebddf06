-- ===== src/Vsock/Flush.antt =====
-- The flush of the ring of vsock.rs hands its oldest bytes to the sink, in at most two writes.
use visor.Prelude.{
  ℕ, zero, suc, ◌+◌, ◌-◌, ◌%◌, ◌^◌, ◌≤◌, ◌<◌, ◌≡◌, refl, sym, ap, ◌∙◌, List, [], ◌∷◌, ◌++◌, length,
  take, drop, min, arith, length-take,
}
use visor.Vsock.TxBuf.{TxBuf, conn_tx_buf_size, wrapping_add, wrapping_sub, len, or_zeroed}
use visor.Vsock.Window.{byte_at, window, window-same, window-append, slice-window, length-drop}
use visor.Vsock.Fifo.{content, IsTxBuf}

take_of_take : (n m : ℕ) (xs : List ℕ) → n ≤ m → take n (take m xs) ≡ take n xs
take_of_take zero m xs h = refl
take_of_take (suc n) zero xs h = absurd (omega arith)
take_of_take (suc n) (suc m) [] h = refl
take_of_take (suc n) (suc m) (x ∷ xs) h = ap (◌∷◌ x) (take_of_take n m xs (omega arith))

-- How many writes may be needed: none, one up to the end of the storage, or two.
abbrev pub Enough : ℕ → TxBuf → Type 0
Enough zero b = len b ≡ 0
Enough (suc zero) b = b.tail % conn_tx_buf_size + len b ≤ conn_tx_buf_size
Enough (suc (suc fuel)) b = Unit

wrapped_position :
    (pos i : ℕ) → (pos % 2 ^ 32 + i) % conn_tx_buf_size ≡ (pos + i) % conn_tx_buf_size
wrapped_position pos i = omega arith

offset_position :
    (pos i : ℕ) → (pos % conn_tx_buf_size + i) % conn_tx_buf_size ≡ (pos + i) % conn_tx_buf_size
offset_position pos i = omega arith

pub len_after_write :
    (head tail n : ℕ)
    → head < 2 ^ 32
    → tail < 2 ^ 32
    → n ≤ wrapping_sub head tail
    → wrapping_sub head (wrapping_add tail n) ≡ wrapping_sub head tail - n
len_after_write head tail n h t fits = omega (arith, h, t, fits)

abbrev pub first_len : TxBuf → ℕ
first_len b = min (conn_tx_buf_size - b.tail % conn_tx_buf_size) (len b)

abbrev pub first_slice : TxBuf → List ℕ
first_slice b = take (first_len b) (drop (b.tail % conn_tx_buf_size) (or_zeroed b.storage))

pub length-first_slice : (b : TxBuf) → IsTxBuf b → length (first_slice b) ≡ first_len b
length-first_slice b inv =
    let rest = length-drop (b.tail % conn_tx_buf_size) (or_zeroed b.storage) in
    length-take (first_len b) (drop (b.tail % conn_tx_buf_size) (or_zeroed b.storage))
      (omega (arith, rest, inv.storage_full))

-- The front of the queue, and the queue behind it.
pub content-written :
    (b : TxBuf) (n : ℕ)
    → IsTxBuf b
    → n ≤ first_len b
    → take n (first_slice b) ++ content (record b { tail = wrapping_add b.tail n }) ≡ content b
unfolding content
content-written b n inv h =
    let storage = or_zeroed b.storage in
    let ofs = b.tail % conn_tx_buf_size in
    let fits : n ≤ len b = omega (arith, h) in
    let less = len_after_write b.head b.tail n inv.head_fits inv.tail_fits fits in
    let front : take n (first_slice b) ≡ window storage b.tail n =
      take_of_take n (first_len b) (drop ofs storage) h
      ∙ slice-window n ofs storage (omega (arith, h)) inv.storage_full
      ∙ window-same n ofs b.tail storage storage
          (λ i lt. ap (byte_at storage) (offset_position b.tail i)) in
    let behind : window storage (wrapping_add b.tail n) (len b - n)
        ≡ window storage (b.tail + n) (len b - n) =
      window-same (len b - n) (wrapping_add b.tail n) (b.tail + n) storage storage
        (λ i lt. ap (byte_at storage) (wrapped_position (b.tail + n) i)) in
    let all : n + (len b - n) ≡ len b = omega (arith, fits) in
    (λ k. front k ++ window storage (wrapping_add b.tail n) (less k))
    ∙ (λ k. window storage b.tail n ++ behind k)
    ∙ sym (window-append n (len b - n) b.tail storage)
    ∙ ap (window storage b.tail) all

pub IsTxBuf-written :
    (b : TxBuf) (n : ℕ)
    → IsTxBuf b
    → n ≤ first_len b
    → IsTxBuf (record b { tail = wrapping_add b.tail n })
IsTxBuf-written b n inv h =
    let less = len_after_write b.head b.tail n inv.head_fits inv.tail_fits (omega (arith, h)) in
    record {
      head_fits = inv.head_fits;
      tail_fits = omega arith;
      len_fits = rw less (omega (arith, inv.len_fits));
      storage_full = inv.storage_full;
    }

pub Enough-written :
    (fuel : ℕ) (b : TxBuf)
    → IsTxBuf b
    → Enough (suc fuel) b
    → Enough fuel (record b { tail = wrapping_add b.tail (first_len b) })
Enough-written zero b inv h =
    let less =
      len_after_write b.head b.tail (first_len b) inv.head_fits inv.tail_fits (omega arith) in
    rw less (omega (arith, h))
Enough-written (suc zero) b inv h =
    let less =
      len_after_write b.head b.tail (first_len b) inv.head_fits inv.tail_fits (omega arith) in
    rw less (omega (arith, inv.len_fits, inv.tail_fits))
Enough-written (suc (suc fuel)) b inv h = tt
