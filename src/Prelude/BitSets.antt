-- ===== src/Prelude/BitSets.antt =====
-- A number as the set of its one bits: what `bit_or` adds to it and what `bit_and` keeps of it.
use visor.Prelude.Bits.{and_lowest, or_lowest, or_zero, and_zero}
use Prim.Native.Nat.{
  ℕ, zero, suc, ◌+◌, ◌-◌, ◌*◌, ◌/◌, ◌%◌, ◌^◌, ◌<◌, max, bit_and, bit_or, bit_and-bitwise,
  bit_or-bitwise,
}
use mathlib.Core.Path.{◌≡◌, refl, sym, ap, ◌∙◌}
use native.Mathlib.Nat.{pow-succ', div-div-eq-div-mul}
use visor.Prelude.Tests.{◌==◌, if◌then◌else◌}
use native.Mathlib.Omega.{arith}

-- The bit of that index.
abbrev pub bit : ℕ → ℕ → ℕ
bit j a = a / 2 ^ j % 2

bit-suc : (j a : ℕ) → bit (suc j) a ≡ bit j (a / 2)
bit-suc j a =
    ap (λ (t : ℕ). a / t % 2) (pow-succ' 2 j)
    ∙ ap (λ (t : ℕ). t % 2) (sym (div-div-eq-div-mul a 2 (2 ^ j)))

bit_zero : (a : ℕ) → bit 0 a ≡ a % 2
bit_zero a = let e : a / 1 ≡ a = omega arith in ap (λ (t : ℕ). t % 2) e

pub bit-or : (j a b : ℕ) → bit j (bit_or a b) ≡ max (bit j a) (bit j b)
bit-or zero a b = omega (arith, or_lowest a b, bit_zero a, bit_zero b, bit_zero (bit_or a b))
bit-or (suc j) a b =
    let half : bit_or a b / 2 ≡ bit_or (a / 2) (b / 2) = omega (arith, or_lowest a b) in
    omega (
      arith,
      bit-suc j (bit_or a b),
      bit-suc j a,
      bit-suc j b,
      ap (λ (t : ℕ). bit j t) half,
      bit-or j (a / 2) (b / 2),
    )

zero_bits : (j : ℕ) → bit j 0 ≡ 0
zero_bits zero = refl
zero_bits (suc j) = bit-suc j 0 ∙ zero_bits j

pub bit-pow : (j k : ℕ) → bit j (2 ^ k) ≡ (if j == k then 1 else 0)
bit-pow zero zero = refl
bit-pow zero (suc k) = grind (arith, bit_zero (2 ^ suc k), pow-succ' 2 k)
bit-pow (suc j) zero = grind (arith, bit-suc j 1, zero_bits j)
bit-pow (suc j) (suc k) =
    let half : 2 ^ suc k / 2 ≡ 2 ^ k = omega (arith, pow-succ' 2 k) in
    grind (arith, bit-suc j (2 ^ suc k), ap (λ (t : ℕ). bit j t) half, bit-pow j k)

or_zero_left : (b : ℕ) → bit_or 0 b ≡ b
or_zero_left b = bit_or-bitwise 0 b

and_zero_left : (b : ℕ) → bit_and 0 b ≡ 0
and_zero_left b = bit_and-bitwise 0 b

-- All the bits of `a` are bits of `v`.
abbrev pub IsSubset : ℕ → ℕ → Type 0
IsSubset a v = bit_and a v ≡ a

subset_half : (a v : ℕ) → IsSubset a v → IsSubset (a / 2) (v / 2)
subset_half a v h = omega (arith, and_lowest a v)

or_subset_below : (n a b v : ℕ) → a + b < n → IsSubset a v → IsSubset b v → IsSubset (bit_or a b) v
or_subset_below zero a b v lt h k = absurd (omega arith)
or_subset_below (suc n) zero b v lt h k =
    ap (λ (t : ℕ). bit_and t v) (or_zero_left b) ∙ k ∙ sym (or_zero_left b)
or_subset_below (suc n) (suc a) b v lt h k =
    let half : bit_or (suc a) b / 2 ≡ bit_or (suc a / 2) (b / 2) =
      omega (arith, or_lowest (suc a) b) in
    omega (
      arith,
      or_lowest (suc a) b,
      and_lowest (bit_or (suc a) b) v,
      and_lowest (suc a) v,
      and_lowest b v,
      ap (λ (t : ℕ). bit_and t (v / 2)) half,
      or_subset_below n (suc a / 2) (b / 2) (v / 2) (omega arith) (subset_half (suc a) v h)
          (subset_half b v k),
    )

pub or-IsSubset : (a b v : ℕ) → IsSubset a v → IsSubset b v → IsSubset (bit_or a b) v
or-IsSubset a b v h k = or_subset_below (suc (a + b)) a b v (omega arith) h k

subset_trans_below : (n a b v : ℕ) → a < n → IsSubset a b → IsSubset b v → IsSubset a v
subset_trans_below zero a b v lt h k = absurd (omega arith)
subset_trans_below (suc n) zero b v lt h k = and_zero_left v
subset_trans_below (suc n) (suc a) b v lt h k = omega (
  arith,
  and_lowest (suc a) b,
  and_lowest b v,
  and_lowest (suc a) v,
  subset_trans_below n (suc a / 2) (b / 2) (v / 2) (omega arith) (subset_half (suc a) b h)
      (subset_half b v k),
)

pub IsSubset-trans : (a b v : ℕ) → IsSubset a b → IsSubset b v → IsSubset a v
IsSubset-trans a b v h k = subset_trans_below (suc a) a b v (omega arith) h k

and_subset_below : (n a v : ℕ) → a < n → IsSubset (bit_and a v) v
and_subset_below zero a v lt = absurd (omega arith)
and_subset_below (suc n) zero v lt = ap (λ (t : ℕ). bit_and t v) (and_zero_left v)
and_subset_below (suc n) (suc a) v lt =
    let half : bit_and (suc a) v / 2 ≡ bit_and (suc a / 2) (v / 2) =
      omega (arith, and_lowest (suc a) v) in
    omega (
      arith,
      and_lowest (suc a) v,
      and_lowest (bit_and (suc a) v) v,
      ap (λ (t : ℕ). bit_and t (v / 2)) half,
      and_subset_below n (suc a / 2) (v / 2) (omega arith),
    )

pub and-IsSubset : (a v : ℕ) → IsSubset (bit_and a v) v
and-IsSubset a v = and_subset_below (suc a) a v (omega arith)

-- Halves that share no bit are added.
pub or_low_high : (k low high : ℕ) → low < 2 ^ k → bit_or low (high * 2 ^ k) ≡ low + high * 2 ^ k
or_low_high zero low high h =
    let none : low ≡ 0 = omega arith in
    ap (λ (t : ℕ). bit_or t (high * 1)) none ∙ or_zero_left (high * 1) ∙ omega arith
or_low_high (suc k) low high h =
    let twice : 2 ^ suc k ≡ 2 * 2 ^ k = pow-succ' 2 k in
    let e : high * 2 ^ suc k ≡ 2 * (high * 2 ^ k) = omega (arith, ap (λ (t : ℕ). high * t) twice) in
    let half : high * 2 ^ suc k / 2 ≡ high * 2 ^ k = omega arith in
    omega (
      arith,
      or_lowest low (high * 2 ^ suc k),
      ap (λ (t : ℕ). bit_or (low / 2) t) half,
      or_low_high k (low / 2) high (omega arith),
    )

or_comm_below : (n a b : ℕ) → a < n → bit_or a b ≡ bit_or b a
or_comm_below zero a b lt = absurd (omega arith)
or_comm_below (suc n) zero b lt = or_zero_left b ∙ sym (or_zero b)
or_comm_below (suc n) (suc a) b lt = omega (
  arith,
  or_lowest (suc a) b,
  or_lowest b (suc a),
  or_comm_below n (suc a / 2) (b / 2) (omega arith),
)

pub or_comm : (a b : ℕ) → bit_or a b ≡ bit_or b a
or_comm a b = or_comm_below (suc a) a b (omega arith)

and_comm_below : (n a b : ℕ) → a < n → bit_and a b ≡ bit_and b a
and_comm_below zero a b lt = absurd (omega arith)
and_comm_below (suc n) zero b lt = and_zero_left b ∙ sym (and_zero b)
and_comm_below (suc n) (suc a) b lt = omega (
  arith,
  and_lowest (suc a) b,
  and_lowest b (suc a),
  and_comm_below n (suc a / 2) (b / 2) (omega arith),
)

pub and_comm : (a b : ℕ) → bit_and a b ≡ bit_and b a
and_comm a b = and_comm_below (suc a) a b (omega arith)

-- A word is its bits in a mask and its bits outside of it.
pub and_split : (n a x : ℕ) → a < 2 ^ n → x < 2 ^ n → bit_and a x + bit_and (2 ^ n - 1 - a) x ≡ x
and_split zero a x h k =
    let none : x ≡ 0 = omega arith in
    ap (λ (t : ℕ). bit_and a t + bit_and (2 ^ 0 - 1 - a) t) none
    ∙ omega (arith, and_zero a, and_zero (2 ^ 0 - 1 - a))
and_split (suc n) a x h k =
    let twice : 2 ^ suc n ≡ 2 * 2 ^ n = pow-succ' 2 n in
    let half : (2 ^ suc n - 1 - a) / 2 ≡ 2 ^ n - 1 - a / 2 = omega arith in
    omega (
      arith,
      and_lowest a x,
      and_lowest (2 ^ suc n - 1 - a) x,
      ap (λ (t : ℕ). bit_and t (x / 2)) half,
      and_split n (a / 2) (x / 2) (omega arith) (omega arith),
    )

subset_refl_below : (n a : ℕ) → a < n → IsSubset a a
subset_refl_below zero a lt = absurd (omega arith)
subset_refl_below (suc n) zero lt = refl
subset_refl_below (suc n) (suc a) lt =
    omega (arith, and_lowest (suc a) (suc a), subset_refl_below n (suc a / 2) (omega arith))

pub IsSubset-refl : (a : ℕ) → IsSubset a a
IsSubset-refl a = subset_refl_below (suc a) a (omega arith)
