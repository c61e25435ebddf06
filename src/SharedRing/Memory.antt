-- ===== src/SharedRing/Memory.antt =====
-- What the stores into the data area of net/shared_ring.rs leave there.
use visor.Prelude.{
  ℕ, zero, suc, ◌+◌, ◌^◌, ◌≤◌, ◌<◌, ◌≡◌, ◌⊎◌, refl, ◌∙◌, List, [], ◌∷◌, length, arith,
}
use visor.SharedRing.{copy_in, copy_out, store_u32, load_u32}

-- Nothing is written in front of the place or behind the bytes.
pub copy_in-outside :
    (memory : ℕ → ℕ) (pos : ℕ) (bytes : List ℕ) (i : ℕ)
    → (i < pos) ⊎ (pos + length bytes ≤ i)
    → copy_in memory pos bytes i ≡ memory i
unfolding copy_in
copy_in-outside memory pos [] i h = refl
copy_in-outside memory pos (byte ∷ rest) i h =
    ground (arith, h, copy_in-outside memory (suc pos) rest i)

copy_in-first :
    (memory : ℕ → ℕ) (pos : ℕ) (byte : ℕ) (rest : List ℕ)
    → copy_in memory pos (byte ∷ rest) pos ≡ byte
unfolding copy_in
copy_in-first memory pos byte rest = ground arith

copy_in-later :
    (memory : ℕ → ℕ) (pos byte : ℕ) (rest : List ℕ) (i : ℕ)
    → pos < i
    → copy_in memory pos (byte ∷ rest) i ≡ copy_in memory (suc pos) rest i
unfolding copy_in
copy_in-later memory pos byte rest i h = ground arith

-- Memories that agree on a stretch give the same bytes.
pub copy_out-agree :
    (f g : ℕ → ℕ) (pos n : ℕ)
    → ((i : ℕ) → pos ≤ i → i < pos + n → f i ≡ g i)
    → copy_out f pos n ≡ copy_out g pos n
unfolding copy_out
copy_out-agree f g pos zero h = refl
copy_out-agree f g pos (suc n) h =
    let first = h pos (omega arith) (omega arith) in
    let others = copy_out-agree f g (suc pos) n (λ i le lt. h i (omega arith) (omega arith)) in
    rw (first, others) refl

pub load_u32-agree :
    (f g : ℕ → ℕ) (pos : ℕ)
    → ((i : ℕ) → pos ≤ i → i < pos + 4 → f i ≡ g i)
    → load_u32 f pos ≡ load_u32 g pos
unfolding load_u32
load_u32-agree f g pos h = omega (
  arith,
  h pos (omega arith) (omega arith),
  h (suc pos) (omega arith) (omega arith),
  h (suc (suc pos)) (omega arith) (omega arith),
  h (suc (suc (suc pos))) (omega arith) (omega arith),
)

pub copy_out-copy_in :
    (memory : ℕ → ℕ) (pos : ℕ) (bytes : List ℕ)
    → copy_out (copy_in memory pos bytes) pos (length bytes) ≡ bytes
unfolding copy_out
copy_out-copy_in memory pos [] = refl
copy_out-copy_in memory pos (byte ∷ rest) =
    let first = copy_in-first memory pos byte rest in
    let others =
      copy_out-agree (copy_in memory pos (byte ∷ rest)) (copy_in memory (suc pos) rest) (suc pos)
        (length rest) (λ i le lt. copy_in-later memory pos byte rest i (omega arith))
      ∙ copy_out-copy_in memory (suc pos) rest in
    rw (first, others) refl

pub load_u32-store_u32 :
    (memory : ℕ → ℕ) (pos value : ℕ)
    → value < 2 ^ 32
    → load_u32 (store_u32 memory pos value) pos ≡ value
unfolding load_u32 store_u32 copy_in
load_u32-store_u32 memory pos value h = ground arith

pub store_u32-outside :
    (memory : ℕ → ℕ) (pos value i : ℕ)
    → (i < pos) ⊎ (pos + 4 ≤ i)
    → store_u32 memory pos value i ≡ memory i
unfolding store_u32
store_u32-outside memory pos value i h = copy_in-outside memory pos (_ ∷ _ ∷ _ ∷ _ ∷ []) i h
