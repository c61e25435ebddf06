-- ===== src/Prelude/Bytes.antt =====
-- Machine words as lists of little-endian bytes, and slices copied into a list of bytes.
use Prim.Native.Nat.{ℕ, zero, suc, ◌+◌, ◌-◌, ◌*◌, ◌/◌, ◌%◌, ◌≤◌, ◌<◌}
use mathlib.Core.Path.{◌≡◌, refl, ◌∙◌}
use mathlib.Core.Logic.{◌⊎◌, inl, inr}
use mathlib.Core.List.{List, [], ◌∷◌}
use native.Mathlib.Omega.{arith}
use visor.Prelude.Lists.{length, get_elem?, set, length-set, get_elem?-set_self, get_elem?-set_ne}

-- `!x` on a u32.
abbrev pub not_u32 : ℕ → ℕ
not_u32 x = 0xFFFFFFFF - x

-- `to_le_bytes` and `from_le_bytes` of a u32.
unfoldable pub to_le_bytes : ℕ → List ℕ
to_le_bytes value =
    value % 256 ∷ value / 256 % 256 ∷ value / 65536 % 256 ∷ value / 16777216 % 256 ∷ []

unfoldable pub from_le_bytes : List ℕ → ℕ
from_le_bytes [] = 0
from_le_bytes (byte ∷ rest) = byte + 256 * from_le_bytes rest

pub from_le_bytes-to_le_bytes :
    (value : ℕ) → value < 4294967296 → from_le_bytes (to_le_bytes value) ≡ value
unfolding from_le_bytes to_le_bytes
from_le_bytes-to_le_bytes value small = omega arith

-- `xs[start..start + bytes.len()].copy_from_slice(&bytes)`.
unfoldable pub copy_at : List ℕ → ℕ → List ℕ → List ℕ
copy_at xs start [] = xs
copy_at xs start (byte ∷ bytes) = copy_at (set xs start byte) (suc start) bytes

pub length-copy_at :
    (xs : List ℕ) (start : ℕ) (bytes : List ℕ) → length (copy_at xs start bytes) ≡ length xs
unfolding copy_at
length-copy_at xs start [] = refl
length-copy_at xs start (byte ∷ bytes) =
    length-copy_at (set xs start byte) (suc start) bytes ∙ length-set xs start byte

-- What lies outside the slice stays.
pub get_elem?-copy_at_outside :
    (xs : List ℕ) (start : ℕ) (bytes : List ℕ) (i : ℕ)
    → (i < start) ⊎ (start + length bytes ≤ i)
    → get_elem? (copy_at xs start bytes) i ≡ get_elem? xs i
unfolding copy_at
get_elem?-copy_at_outside xs start [] i out = refl
get_elem?-copy_at_outside xs start (byte ∷ bytes) i out =
    get_elem?-copy_at_outside (set xs start byte) (suc start) bytes i
      (elim out [ inl before ↦ inl (omega arith) | inr after ↦ inr (omega arith) ])
    ∙ get_elem?-set_ne xs start i byte
        (λ (e : start ≡ i). elim out [ inl before ↦ omega arith | inr after ↦ omega arith ])

-- The bytes of the slice are there afterwards.
pub get_elem?-copy_at_inside :
    (xs : List ℕ) (start : ℕ) (bytes : List ℕ) (i : ℕ)
    → i < length bytes
    → start + length bytes ≤ length xs
    → get_elem? (copy_at xs start bytes) (start + i) ≡ get_elem? bytes i
unfolding copy_at
get_elem?-copy_at_inside xs start [] i h fits = absurd (omega arith)
get_elem?-copy_at_inside xs start (byte ∷ bytes) zero h fits =
    let here : start + 0 ≡ start = omega arith in
    rw here (
      get_elem?-copy_at_outside (set xs start byte) (suc start) bytes start (inl (omega arith))
      ∙ get_elem?-set_self xs start byte (omega arith))
get_elem?-copy_at_inside xs start (byte ∷ bytes) (suc i) h fits =
    let step : start + suc i ≡ suc start + i = omega arith in
    rw step (
      get_elem?-copy_at_inside (set xs start byte) (suc start) bytes i (omega arith)
        (omega (arith, length-set xs start byte)))
