-- ===== src/DirtyTracking/Counts.antt =====
-- The list and the count of the dirty pages of dirty_tracking.rs.
use visor.Prelude.{
  ℕ, zero, suc, ◌+◌, ◌-◌, ◌*◌, ◌≤◌, ◌<◌, ◌≡◌, refl, sym, ap, Bool, false, ◌&&◌, ◌||◌, List, [], ◌∷◌,
  ◌++◌, some, length, length-append, leb, ltb, ◌==◌, arith,
}
use visor.Prelude.BitSets.{bit}
use visor.DirtyTracking.{
  DirtyBitmap, is_dirty, dirty_pages, pages_from, pages_of_byte, dirty_count, count_all, ones,
}
use visor.DirtyTracking.Pages.{Inv, bit_at, is_dirty_lem, test_bit_lem}

unfoldable pub contains : ℕ → List ℕ → Bool
contains j [] = false
contains j (x ∷ xs) = x == j || contains j xs

contains-append :
    (j : ℕ) (xs ys : List ℕ) → contains j (xs ++ ys) ≡ (contains j xs || contains j ys)
unfolding contains
contains-append j [] ys = refl
contains-append j (x ∷ xs) ys = ground (arith, contains-append j xs ys)

contains-pages_of_byte :
    (j n index byte base page_count : ℕ)
    → contains j (pages_of_byte n index byte base page_count) ≡ (
        leb (base + index) j
        && (ltb j (base + index + n) && (bit (j - base) byte == 1 && ltb j page_count)))
unfolding contains pages_of_byte
contains-pages_of_byte j zero index byte base page_count = ground arith
contains-pages_of_byte j (suc n) index byte base page_count =
    let back : base + index ≡ j → bit (j - base) byte ≡ bit index byte =
      λ e. ap (λ (t : ℕ). bit t byte) (omega arith) in
    ground (
      arith,
      contains-pages_of_byte j n (suc index) byte base page_count,
      test_bit_lem byte index,
      back,
    )

contains-pages_from :
    (j byte_idx : ℕ) (bytes : List ℕ) (page_count : ℕ)
    → contains j (pages_from byte_idx bytes page_count)
      ≡ (leb (byte_idx * 8) j && (ltb j page_count && bit_at bytes (j - byte_idx * 8) == 1))
unfolding contains pages_from bit_at
contains-pages_from j byte_idx [] page_count = ground arith
contains-pages_from j byte_idx (b ∷ bytes) page_count =
    let behind : j - suc byte_idx * 8 ≡ j - byte_idx * 8 - 8 = omega arith in
    ground (
      arith,
      contains-append j (pages_of_byte 8 0 b (byte_idx * 8) page_count)
          (pages_from (suc byte_idx) bytes page_count),
      contains-pages_of_byte j 8 0 b (byte_idx * 8) page_count,
      contains-pages_from j (suc byte_idx) bytes page_count,
      ap (bit_at bytes) behind,
    )

-- `dirty_pages` lists a page exactly if `is_dirty` says so of it.
pub dirty_pages-contains :
    (b : DirtyBitmap) (j : ℕ) → Inv b → is_dirty b j ≡ some (contains j (dirty_pages b))
unfolding dirty_pages
dirty_pages-contains b j v =
    ground (arith, is_dirty_lem b j v, contains-pages_from j 0 b.bitmap b.page_count)

-- No bit behind the last page is set.
abbrev pub NoStray : List ℕ → ℕ → Type 0
NoStray bytes page_count = (i : ℕ) → page_count ≤ i → bit_at bytes i ≡ 0

length-pages_of_byte :
    (n index byte base page_count : ℕ)
    → ((j : ℕ) → j < index + n → page_count ≤ base + j → bit j byte ≡ 0)
    → length (pages_of_byte n index byte base page_count) ≡ ones n index byte
unfolding pages_of_byte ones
length-pages_of_byte zero index byte base page_count h = refl
length-pages_of_byte (suc n) index byte base page_count h = ground (
  arith,
  test_bit_lem byte index,
  h index (omega arith),
  length-pages_of_byte n (suc index) byte base page_count (λ j lt. h j (omega arith)),
)

length-pages_from :
    (byte_idx : ℕ) (bytes : List ℕ) (page_count : ℕ)
    → ((i : ℕ) → page_count ≤ byte_idx * 8 + i → bit_at bytes i ≡ 0)
    → length (pages_from byte_idx bytes page_count) ≡ count_all bytes
unfolding pages_from count_all bit_at
length-pages_from byte_idx [] page_count h = refl
length-pages_from byte_idx (b ∷ bytes) page_count h =
    let first : (j : ℕ) → j < 0 + 8 → page_count ≤ byte_idx * 8 + j → bit j b ≡ 0 =
      λ j lt le. ground (arith, h j le) in
    let others : (i : ℕ) → page_count ≤ suc byte_idx * 8 + i → bit_at bytes i ≡ 0 = λ i le.
      let back : i + 8 - 8 ≡ i = omega arith in
      ground (arith, h (i + 8) (omega arith), ap (bit_at bytes) back) in
    omega (
      arith,
      length-append (pages_of_byte 8 0 b (byte_idx * 8) page_count)
          (pages_from (suc byte_idx) bytes page_count),
      length-pages_of_byte 8 0 b (byte_idx * 8) page_count first,
      length-pages_from (suc byte_idx) bytes page_count others,
    )

-- `dirty_count` is the number of the pages that `dirty_pages` lists, if no bit behind the last page is set.
pub dirty_count-length :
    (b : DirtyBitmap) → NoStray b.bitmap b.page_count → dirty_count b ≡ length (dirty_pages b)
unfolding dirty_count dirty_pages
dirty_count-length b h = sym (length-pages_from 0 b.bitmap b.page_count (λ i le. h i (omega arith)))
