-- ===== src/Vsock/TxBuf.antt =====
-- The ring buffer of vsock.rs for the bytes from the guest. Its positions wrap at 2 ^ 32, which is a multiple
-- of its capacity. The sink that it is flushed to is an argument with a state of its own.
use visor.Prelude.{
  ℕ, zero, suc, ◌+◌, ◌-◌, ◌%◌, ◌^◌, Bool, List, Option, none, some, Result, ok, err, length, ltb,
  ◌==◌, if◌then◌else◌, take, drop, replicate, min,
}
use visor.Prelude.Bytes.{copy_at}

-- `VsockError`, with the errors of the queues left out.
pub data VsockError : Type 0 where
  tx_buf_full tx_buf_flush no_data : VsockError

-- `CONN_TX_BUF_SIZE` and `TxBuf::SIZE`.
abbrev pub conn_tx_buf_size : ℕ
conn_tx_buf_size = 65536

pub record TxBuf : Type 0 where
  -- `data` of the source: allocated by the first push.
  pub storage : Option (List ℕ)
  pub head : ℕ
  pub tail : ℕ

unfoldable pub new : TxBuf
new = record { storage = none; head = 0; tail = 0 }

-- `Wrapping` of a u32.
abbrev pub wrapping_add : ℕ → ℕ → ℕ
wrapping_add a b = (a + b) % 2 ^ 32

abbrev pub wrapping_sub : ℕ → ℕ → ℕ
wrapping_sub a b = (a + 2 ^ 32 - b) % 2 ^ 32

abbrev pub len : TxBuf → ℕ
len b = wrapping_sub b.head b.tail

abbrev pub is_empty : TxBuf → Bool
is_empty b = len b == 0

unfoldable pub zeroed : ℕ → List ℕ
zeroed n = replicate n 0

unfoldable pub or_zeroed : Option (List ℕ) → List ℕ
or_zeroed none = zeroed conn_tx_buf_size
or_zeroed (some storage) = storage

-- The slice that is copied in two parts where it goes over the end.
unfoldable pub copy_wrapped : List ℕ → ℕ → List ℕ → List ℕ
copy_wrapped storage head_ofs src =
    let first_len = min (conn_tx_buf_size - head_ofs) (length src) in
    copy_at (copy_at storage head_ofs (take first_len src)) 0 (drop first_len src)

unfoldable pub push : TxBuf → List ℕ → Result TxBuf VsockError
push b src =
    if ltb conn_tx_buf_size (len b + length src)
    then err VsockError.tx_buf_full
    else ok (record {
      storage = some (copy_wrapped (or_zeroed b.storage) (b.head % conn_tx_buf_size) src);
      head = wrapping_add b.head (length src);
      tail = b.tail;
    })

-- `Write::write`: how many bytes were taken.
pub record Sink (S : Type 0) : Type 0 where
  pub write : List ℕ → S → Result {0, 0} ℕ VsockError × S

module _ {S : Type 0} (sink : Sink S) where
  -- What follows a write: a rest of the slice stays, or the part before the end is tried as well.
  unfoldable pub written :
      ℕ
      → Option (Result {0, 0} ℕ VsockError × TxBuf × S)
      → Option (Result {0, 0} ℕ VsockError × TxBuf × S)
  written n none = none
  written n (some (ok more, b, s)) = some (ok (n + more), b, s)
  written n (some (err e, b, s)) = some (ok n, b, s)

  -- `flush_to`: each recursive call takes one unit of fuel, and `none` says that it was not enough.
  unfoldable pub flush_written :
      (TxBuf → S → Option (Result {0, 0} ℕ VsockError × TxBuf × S))
      → ℕ
      → TxBuf
      → Result {0, 0} ℕ VsockError × S
      → Option (Result {0, 0} ℕ VsockError × TxBuf × S)
  flush_written again first_len b (err e, s) = some (err VsockError.tx_buf_flush, b, s)
  flush_written again first_len b (ok n, s) =
      let b' = record b { tail = wrapping_add b.tail n } in
      if ltb n first_len then some (ok n, b', s) else written n (again b' s)

  unfoldable pub flush_stored :
      (TxBuf → S → Option (Result {0, 0} ℕ VsockError × TxBuf × S))
      → List ℕ
      → TxBuf
      → S
      → Option (Result {0, 0} ℕ VsockError × TxBuf × S)
  flush_stored again storage b s =
      let tail_ofs = b.tail % conn_tx_buf_size in
      let first_len = min (conn_tx_buf_size - tail_ofs) (len b) in
      flush_written again first_len b (sink.write (take first_len (drop tail_ofs storage)) s)

  unfoldable pub flush_to : ℕ → TxBuf → S → Option (Result {0, 0} ℕ VsockError × TxBuf × S)
  flush_to zero b s = if is_empty b then some (ok 0, b, s) else none
  flush_to (suc fuel) b s = if is_empty b then some (ok 0, b, s) else elim b.storage [
    | none ↦ some (ok 0, b, s)
    | some storage ↦ flush_stored (flush_to fuel) storage b s
  ]
