-- ===== src/DirtyTracking.antt =====
-- crates/visor-vmm/src/dirty_tracking.rs: the bitmap of the guest pages that were written, the samples of
-- the dirty rate and the tracker. A byte is a number below 256. A byte index out of range panics, which is
-- `none`. A rate is the pair of the count and the milliseconds that the code divides.
pub mod Pages
pub mod Counts
mod Tests
use visor.Prelude.{
  ℕ, zero, suc, ◌+◌, ◌-◌, ◌*◌, ◌/◌, ◌%◌, ◌^◌, min, bit_and, bit_or, Bool, false, ◌&&◌, List, [],
  ◌∷◌, ◌++◌, Option, none, some, length, get_elem?, set, replicate, leb, ltb, ◌==◌, if◌then◌else◌,
  Result, ok, err,
}

abbrev pub page_size : ℕ
page_size = 4096

-- `a.div_ceil(b)`.
abbrev pub div_ceil : ℕ → ℕ → ℕ
div_ceil a b = (a + (b - 1)) / b

pub data DirtyTrackingError : Type 0 where
  bitmap_size_mismatch : (expected actual : ℕ) → DirtyTrackingError

pub record DirtyBitmap : Type 0 where
  pub bitmap : List ℕ
  pub page_count : ℕ

unfoldable pub new : ℕ → DirtyBitmap
new memory_size_bytes =
    let page_count = div_ceil memory_size_bytes page_size in
    record { bitmap = replicate (div_ceil page_count 8) 0; page_count = page_count }

unfoldable pub from_raw : List ℕ → ℕ → Result DirtyBitmap DirtyTrackingError
from_raw bytes memory_size_bytes =
    let page_count = div_ceil memory_size_bytes page_size in
    let expected = div_ceil page_count 8 in
    if length bytes == expected
    then ok (record { bitmap = bytes; page_count = page_count })
    else err (bitmap_size_mismatch expected (length bytes))

-- `(byte >> bit) & 1 == 1`.
unfoldable pub test_bit : ℕ → ℕ → Bool
test_bit byte index = bit_and (byte / 2 ^ index) 1 == 1

unfoldable pub is_dirty : DirtyBitmap → ℕ → Option Bool
is_dirty b page_index =
    if leb b.page_count page_index then some false else elim (get_elem? b.bitmap (page_index / 8)) [
      | none ↦ none
      | some byte ↦ some (test_bit byte (page_index % 8))
    ]

unfoldable pub set_dirty : DirtyBitmap → ℕ → Option DirtyBitmap
set_dirty b page_index =
    if leb b.page_count page_index then some b else elim (get_elem? b.bitmap (page_index / 8)) [
      | none ↦ none
      | some byte ↦
          some (record b {
            bitmap = set b.bitmap (page_index / 8) (bit_or byte (2 ^ (page_index % 8)));
          })
    ]

-- `fill(0)`.
unfoldable pub fill_zero : List ℕ → List ℕ
fill_zero [] = []
fill_zero (byte ∷ rest) = 0 ∷ fill_zero rest

unfoldable pub clear : DirtyBitmap → DirtyBitmap
clear b = record b { bitmap = fill_zero b.bitmap }

-- The one bits among `n` bits from `index` on; `count_ones` of a u8 counts eight.
unfoldable pub ones : ℕ → ℕ → ℕ → ℕ
ones zero index byte = 0
ones (suc n) index byte = byte / 2 ^ index % 2 + ones n (suc index) byte

unfoldable pub count_all : List ℕ → ℕ
count_all [] = 0
count_all (byte ∷ rest) = ones 8 0 byte + count_all rest

unfoldable pub dirty_count : DirtyBitmap → ℕ
dirty_count b = count_all b.bitmap

-- The pages of `n` bits of a byte from `index` on, below `page_count`.
unfoldable pub pages_of_byte : ℕ → ℕ → ℕ → ℕ → ℕ → List ℕ
pages_of_byte zero index byte base page_count = []
pages_of_byte (suc n) index byte base page_count =
    let rest = pages_of_byte n (suc index) byte base page_count in
    if test_bit byte index && ltb (base + index) page_count then (base + index) ∷ rest else rest

unfoldable pub pages_from : ℕ → List ℕ → ℕ → List ℕ
pages_from byte_idx [] page_count = []
pages_from byte_idx (byte ∷ rest) page_count =
    pages_of_byte 8 0 byte (byte_idx * 8) page_count ++ pages_from (suc byte_idx) rest page_count

unfoldable pub dirty_pages : DirtyBitmap → List ℕ
dirty_pages b = pages_from 0 b.bitmap b.page_count

unfoldable pub zip_or : List ℕ → List ℕ → List ℕ
zip_or [] other = []
zip_or (dst ∷ rest) [] = dst ∷ rest
zip_or (dst ∷ rest) (src ∷ other) = bit_or dst src ∷ zip_or rest other

unfoldable pub merge : DirtyBitmap → DirtyBitmap → DirtyBitmap
merge b other = record b { bitmap = zip_or b.bitmap other.bitmap }

pub record DirtyRateEstimator : Type 0 where
  pub last_sample : Option (ℕ × ℕ)

-- The quotient of a sample: the count over the milliseconds, each clamped to a u32; 0 over 1 when no time
-- has passed.
unfoldable pub rate_since : ℕ → ℕ → ℕ × ℕ → ℕ × ℕ
rate_since timestamp_ms dirty_count (prev_ts, prev_count) =
    let dt_ms = timestamp_ms - prev_ts in
    if dt_ms == 0 then (0, 1) else (min dirty_count 0xFFFFFFFF, min dt_ms 0xFFFFFFFF)

unfoldable pub sample : DirtyRateEstimator → ℕ → ℕ → DirtyRateEstimator × Option (ℕ × ℕ)
sample e timestamp_ms dirty_count = (
  record e { last_sample = some (timestamp_ms, dirty_count) },
  elim e.last_sample [
    | none ↦ none
    | some previous ↦ some (rate_since timestamp_ms dirty_count previous)
  ],
)

unfoldable pub reset : DirtyRateEstimator → DirtyRateEstimator
reset e = record e { last_sample = none }

pub record DirtySnapshot : Type 0 where
  pub snapshot_bitmap : DirtyBitmap
  pub rate : Option (ℕ × ℕ)
  pub snapshot_count : ℕ

pub record DirtyTracker : Type 0 where
  pub memory_size : ℕ
  pub slot : ℕ
  pub rate_estimator : DirtyRateEstimator
  pub last_rate : Option (ℕ × ℕ)

unfoldable pub new_tracker : ℕ → ℕ → DirtyTracker
new_tracker memory_size slot = record {
  memory_size = memory_size;
  slot = slot;
  rate_estimator = record { last_sample = none };
  last_rate = none;
}

unfoldable pub collect_from_bitmap :
    DirtyTracker → DirtyBitmap → ℕ → DirtyTracker × Result DirtySnapshot DirtyTrackingError
collect_from_bitmap t b timestamp_ms =
    let expected_pages = div_ceil t.memory_size page_size in
    let count = dirty_count b in
    let (estimator, rate) = sample t.rate_estimator timestamp_ms count in
    if b.page_count == expected_pages
    then (
      record t { rate_estimator = estimator; last_rate = rate },
      ok (record { snapshot_bitmap = b; rate = rate; snapshot_count = count }),
    )
    else (t, err (bitmap_size_mismatch (div_ceil expected_pages 8) (length b.bitmap)))
