-- ===== src/SharedRing.antt =====
-- crates/visor-vmm/src/net/shared_ring.rs: the packet ring in shared memory, with its one producer and one
-- consumer. The data area is a function from positions to bytes; the two indices are u64 counters, whose
-- sums wrap at 2^64. The loads and stores of one call are one step.
-- Where the code subtracts an index from a smaller one, or more than the capacity from it, it panics or
-- wraps, and the subtraction here gives 0.
pub mod Memory
pub mod Positions
pub mod Content
pub mod Placing
pub mod Queue
mod Tests
use visor.Prelude.{
  ℕ, zero, suc, ◌+◌, ◌-◌, ◌*◌, ◌/◌, ◌%◌, ◌^◌, bit_and, Bool, true, false, List, [], ◌∷◌, Option,
  none, some, length, leb, ltb, ◌==◌, if◌then◌else◌, Result, ok, err,
}

abbrev pub min_capacity : ℕ
min_capacity = 65536

abbrev pub max_packet_size : ℕ
max_packet_size = 9014

abbrev pub entry_header : ℕ
entry_header = 4

abbrev pub entry_align : ℕ
entry_align = 8

abbrev pub skip_marker : ℕ
skip_marker = 0xFFFFFFFF

pub data RingError : Type 0 where
  too_small : (size min : ℕ) → RingError

-- The header and the data area; a packet is its list of bytes.
pub record Ring : Type 0 where
  pub write_idx : ℕ
  pub read_idx : ℕ
  pub capacity : ℕ
  pub bytes_at : ℕ → ℕ

unfoldable pub from_raw : (ℕ → ℕ) → ℕ → Result Ring RingError
from_raw memory capacity =
    if ltb capacity min_capacity
    then err (too_small capacity min_capacity)
    else ok (record { write_idx = 0; read_idx = 0; capacity = capacity; bytes_at = memory })

-- `(value + align - 1) & !(align - 1)` on a usize.
unfoldable pub align_up : ℕ → ℕ → ℕ
align_up value align = bit_and (value + align - 1) (0xFFFFFFFFFFFFFFFF - (align - 1))

abbrev pub wrap_u64 : ℕ → ℕ
wrap_u64 x = x % 2 ^ 64

-- `copy_nonoverlapping` into the data area.
unfoldable pub copy_in : (ℕ → ℕ) → ℕ → List ℕ → ℕ → ℕ
copy_in memory pos [] i = memory i
copy_in memory pos (byte ∷ rest) i = if i == pos then byte else copy_in memory (suc pos) rest i

-- `copy_nonoverlapping` out of it.
unfoldable pub copy_out : (ℕ → ℕ) → ℕ → ℕ → List ℕ
copy_out memory pos zero = []
copy_out memory pos (suc n) = memory pos ∷ copy_out memory (suc pos) n

-- A u32 store and load, in little-endian order.
unfoldable pub store_u32 : (ℕ → ℕ) → ℕ → ℕ → ℕ → ℕ
store_u32 memory pos value =
    copy_in memory pos
      (value % 256 ∷ value / 256 % 256 ∷ value / 65536 % 256 ∷ value / 16777216 % 256 ∷ [])

unfoldable pub load_u32 : (ℕ → ℕ) → ℕ → ℕ
load_u32 memory pos =
    memory pos
    + 256 * memory (suc pos)
    + 65536 * memory (suc (suc pos))
    + 16777216 * memory (suc (suc (suc pos)))

unfoldable pub write_entry : Ring → ℕ → List ℕ → ℕ → ℕ
write_entry ring idx packet =
    let pos = idx % ring.capacity in
    copy_in (store_u32 ring.bytes_at pos (length packet % 2 ^ 32)) (pos + entry_header) packet

unfoldable pub write_skip_marker : Ring → ℕ → ℕ → ℕ
write_skip_marker ring idx = store_u32 ring.bytes_at (idx % ring.capacity) skip_marker

unfoldable pub available_space : Ring → ℕ
available_space ring = ring.capacity - (ring.write_idx - ring.read_idx)

abbrev pub entry_size : List ℕ → ℕ
entry_size packet = align_up (entry_header + length packet) entry_align

-- The entry at the current position.
unfoldable pub send_here : Ring → List ℕ → Ring × Bool
send_here ring packet =
    if leb (entry_size packet) (available_space ring)
    then (
      record ring {
        bytes_at = write_entry ring ring.write_idx packet;
        write_idx = wrap_u64 (ring.write_idx + entry_size packet);
      },
      true,
    )
    else (ring, false)

-- The skip marker up to the end and the entry at the start.
unfoldable pub send_wrapped : Ring → List ℕ → Ring × Bool
send_wrapped ring packet =
    let gap = ring.capacity - ring.write_idx % ring.capacity in
    let new_write_idx = wrap_u64 (ring.write_idx + gap) in
    let marked = record ring { bytes_at = write_skip_marker ring ring.write_idx } in
    if leb (gap + entry_size packet) (available_space ring)
    then (
      record marked {
        bytes_at = write_entry marked new_write_idx packet;
        write_idx = wrap_u64 (new_write_idx + entry_size packet);
      },
      true,
    )
    else (ring, false)

unfoldable pub try_send : Ring → List ℕ → Ring × Bool
try_send ring packet =
    if ltb max_packet_size (length packet)
    then (ring, false)
    else (if leb (ring.write_idx % ring.capacity + entry_size packet) ring.capacity
        then send_here ring packet
        else send_wrapped ring packet)

-- What `try_recv` does with an entry of that length, into a buffer of `buf_len` bytes.
unfoldable pub receive : Ring → ℕ → ℕ → Ring × Option (List ℕ)
receive ring len buf_len =
    let read_pos = ring.read_idx % ring.capacity in
    if ltb buf_len len then (ring, none) else (
      record ring {
        read_idx = wrap_u64 (ring.read_idx + align_up (entry_header + len) entry_align);
      },
      some (copy_out ring.bytes_at (read_pos + entry_header) len),
    )

-- `try_recv` on fuel for its recursion; `none` if the fuel runs out.
unfoldable pub try_recv : ℕ → Ring → ℕ → Option (Ring × Option (List ℕ))
try_recv zero ring buf_len = none
try_recv (suc fuel) ring buf_len =
    let read_pos = ring.read_idx % ring.capacity in
    let len = load_u32 ring.bytes_at read_pos in
    let skipped = record ring {
      read_idx = wrap_u64 (ring.read_idx + (ring.capacity - read_pos));
    } in
    let again = try_recv fuel skipped buf_len in
    if leb ring.write_idx ring.read_idx
    then some (ring, none)
    else (if len == skip_marker then again else some (receive ring len buf_len))

unfoldable pub has_data : Ring → Bool
has_data ring = ltb ring.read_idx ring.write_idx
