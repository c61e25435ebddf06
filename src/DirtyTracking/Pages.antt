-- ===== src/DirtyTracking/Pages.antt =====
-- The pages that a bitmap of dirty_tracking.rs marks, and what the operations do to them.
use visor.Prelude.{
  ℕ, zero, suc, ◌+◌, ◌-◌, ◌*◌, ◌/◌, ◌%◌, ◌^◌, ◌≤◌, ◌<◌, ◌≡◌, inl, inr, refl, sym, ap, ◌∙◌, max,
  bit_or, Bool, true, ◌&&◌, ◌||◌, List, [], ◌∷◌, some, length, length-set, get_elem?, set, ltb,
  ◌==◌, if◌then◌else◌, Bool-cases, arith,
}
use visor.Prelude.Bits.{and_low_mask}
use visor.Prelude.BitSets.{bit, bit-or, bit-pow}
use visor.DirtyTracking.{DirtyBitmap, is_dirty, set_dirty, merge, zip_or, test_bit}

-- The bit of that index of a list of bytes; 0 behind its end.
unfoldable pub bit_at : List ℕ → ℕ → ℕ
bit_at [] i = 0
bit_at (byte ∷ rest) i = if ltb i 8 then bit i byte else bit_at rest (i - 8)

-- There is a byte for every page.
pub record Inv (b : DirtyBitmap) : Type 0 where
  pub covered : b.page_count ≤ 8 * length b.bitmap

pub test_bit_lem : (byte index : ℕ) → test_bit byte index ≡ (bit index byte == 1)
unfolding test_bit
test_bit_lem byte index = ap (λ (t : ℕ). t == 1) (and_low_mask 1 (byte / 2 ^ index))

pub bit_at_bit : (bytes : List ℕ) (i : ℕ) → bit_at bytes i < 2
unfolding bit_at
bit_at_bit [] i = omega arith
bit_at_bit (b ∷ bytes) i = ground (arith, bit_at_bit bytes (i - 8))

byte_lem :
    (bytes : List ℕ) (q r : ℕ)
    → r < 8
    → q < length bytes
    → (byte : ℕ) × (get_elem? bytes q ≡ some byte) × (bit_at bytes (8 * q + r) ≡ bit r byte)
unfolding bit_at
byte_lem [] q r h k = absurd (omega arith)
byte_lem (b ∷ bytes) zero r h k = (b, refl, ground arith)
byte_lem (b ∷ bytes) (suc q) r h k =
    let (byte, e, f) = byte_lem bytes q r h (omega arith) in
    let less : 8 * suc q + r - 8 ≡ 8 * q + r = omega arith in
    (byte, e, ground (arith, f, ap (bit_at bytes) less))

set_bit :
    (bytes : List ℕ) (q r j byte : ℕ)
    → r < 8
    → get_elem? bytes q ≡ some byte
    → bit_at (set bytes q (bit_or byte (2 ^ r))) j ≡ (if j == 8 * q + r then 1 else bit_at bytes j)
unfolding bit_at
set_bit [] q r j byte h e = grind arith
set_bit (b ∷ bytes) zero r j byte h e = ground (arith, bit-or j byte (2 ^ r), bit-pow j r)
set_bit (b ∷ bytes) (suc q) r j byte h e = ground (arith, set_bit bytes q r (j - 8) byte h e)

bit_at-zip_or :
    (xs ys : List ℕ) (i : ℕ)
    → length ys ≤ length xs
    → bit_at (zip_or xs ys) i ≡ max (bit_at xs i) (bit_at ys i)
unfolding bit_at zip_or
bit_at-zip_or [] [] i h = refl
bit_at-zip_or [] (y ∷ ys) i h = absurd (omega arith)
bit_at-zip_or (x ∷ xs) [] i h = ground arith
bit_at-zip_or (x ∷ xs) (y ∷ ys) i h = ground (arith, bit-or i x y, bit_at-zip_or xs ys (i - 8))

length-zip_or : (xs ys : List ℕ) → length (zip_or xs ys) ≡ length xs
unfolding zip_or
length-zip_or [] ys = refl
length-zip_or (x ∷ xs) [] = refl
length-zip_or (x ∷ xs) (y ∷ ys) = ap suc (length-zip_or xs ys)

-- What the code reads is the bit, below the page count.
pub is_dirty_lem :
    (b : DirtyBitmap) (i : ℕ)
    → Inv b
    → is_dirty b i ≡ some (ltb i b.page_count && bit_at b.bitmap i == 1)
unfolding is_dirty
is_dirty_lem b i v = elim (Bool-cases (ltb i b.page_count)) [
  | inl below ↦
      let (byte, e, f) =
        byte_lem b.bitmap (i / 8) (i % 8) (omega arith) (ground (arith, v.covered)) in
      let whole : 8 * (i / 8) + i % 8 ≡ i = omega arith in
      let now : bit_at b.bitmap i ≡ bit (i % 8) byte = ap (bit_at b.bitmap) (sym whole) ∙ f in
      ground (arith, e, now, test_bit_lem byte (i % 8))
  | inr above ↦ ground arith
]

-- Marking a page marks it, if there is such a page, and leaves every other page as it was.
pub set_dirty-is_dirty :
    (b : DirtyBitmap) (i : ℕ)
    → Inv b
    → (marked : DirtyBitmap) × (set_dirty b i ≡ some marked)
      × Inv marked
      × ((j : ℕ)
          → is_dirty marked j ≡ (if j == i && ltb i b.page_count then some true else is_dirty b j))
unfolding set_dirty
set_dirty-is_dirty b i v = elim (Bool-cases (ltb i b.page_count)) [
  | inl below ↦
      let (byte, e, f) =
        byte_lem b.bitmap (i / 8) (i % 8) (omega arith) (ground (arith, v.covered)) in
      let now = record b { bitmap = set b.bitmap (i / 8) (bit_or byte (2 ^ (i % 8))) } in
      let inv : Inv now = record {
        covered = omega (arith, v.covered, length-set b.bitmap (i / 8) (bit_or byte (2 ^ (i % 8))));
      } in
      let whole : 8 * (i / 8) + i % 8 ≡ i = omega arith in
      (
        now,
        ground (arith, e),
        inv,
        λ j. ground (
          arith,
          is_dirty_lem now j inv,
          is_dirty_lem b j v,
          set_bit b.bitmap (i / 8) (i % 8) j byte (omega arith) e,
        ),
      )
  | inr above ↦ (b, ground arith, v, λ j. ground arith)
]

-- A page is dirty after a merge exactly if it was in one of the two bitmaps of the same memory.
pub merge-is_dirty :
    (b other : DirtyBitmap) (i : ℕ) (mine theirs : Bool)
    → Inv b
    → Inv other
    → other.page_count ≡ b.page_count
    → length other.bitmap ≡ length b.bitmap
    → is_dirty b i ≡ some mine
    → is_dirty other i ≡ some theirs
    → is_dirty (merge b other) i ≡ some (mine || theirs)
unfolding merge
merge-is_dirty b other i mine theirs v w e l m t =
    let inv : Inv (merge b other) = record {
      covered = omega (arith, v.covered, length-zip_or b.bitmap other.bitmap);
    } in
    ground (
      arith,
      is_dirty_lem b i v,
      is_dirty_lem other i w,
      is_dirty_lem (merge b other) i inv,
      bit_at-zip_or b.bitmap other.bitmap i (omega arith),
      bit_at_bit b.bitmap i,
      bit_at_bit other.bitmap i,
    )
