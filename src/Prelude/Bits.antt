-- ===== src/Prelude/Bits.antt =====
-- Facts about `bit_and` and `bit_or` at variables, and checks of every value of a small range.
use Prim.Native.Nat.{
  ℕ, zero, suc, ◌+◌, ◌-◌, ◌*◌, ◌/◌, ◌%◌, ◌^◌, ◌≤◌, ◌<◌, min, max, bit_and, bit_or, digits,
  bit_and-bitwise, bit_or-bitwise,
}
use mathlib.Core.Path.{◌≡◌, refl, sym, ap, ◌∙◌}
use mathlib.Core.Bool.{Bool, true, ◌&&◌}
use native.Mathlib.Nat.{
  pow-succ', one-le-pow, div-div-eq-div-mul, mod-eq_of_lt, div-lt_iff_lt-mul, mod-add-div,
  add-mul-mod_self_left,
}
use native.Mathlib.Omega.{arith}

-- A test that every number below a bound passes.
unfoldable pub passes_below : (ℕ → Bool) → ℕ → Bool
passes_below test zero = true
passes_below test (suc bound) = passes_below test bound && test bound

pub passes_below-passes :
    (test : ℕ → Bool) (bound : ℕ)
    → passes_below test bound ≡ true
    → (k : ℕ) → k < bound
    → test k ≡ true
unfolding passes_below
passes_below-passes test zero all k small = absurd (omega arith)
passes_below-passes test (suc bound) all k small =
    ground (arith, λ (h : passes_below test bound ≡ true). passes_below-passes test bound h k)

-- The count of digits in the definition of the operations only has to be large enough.
enough_digits :
    (z : ℕ → ℕ) (f : ℕ → ℕ → ℕ) (a b n m : ℕ) → a ≤ n → a ≤ m → digits z f n a b ≡ digits z f m a b
enough_digits z f zero b zero zero h k = refl
enough_digits z f zero b zero (suc m) h k = refl
enough_digits z f zero b (suc n) zero h k = refl
enough_digits z f zero b (suc n) (suc m) h k = refl
enough_digits z f (suc a) b zero m h k = absurd (omega arith)
enough_digits z f (suc a) b (suc n) zero h k = absurd (omega arith)
enough_digits z f (suc a) b (suc n) (suc m) h k =
    rw (enough_digits z f (suc a / 2) (b / 2) n m (omega arith) (omega arith))

pub and_lowest : (a b : ℕ) → bit_and a b ≡ 2 * bit_and (a / 2) (b / 2) + min (a % 2) (b % 2)
and_lowest zero b = omega (arith, bit_and-bitwise 0 b, bit_and-bitwise 0 (b / 2))
and_lowest (suc a) b = omega (
  arith,
  bit_and-bitwise (suc a) b,
  bit_and-bitwise (suc a / 2) (b / 2),
  enough_digits (λ y. 0) min (suc a / 2) (b / 2) a (suc a / 2) (omega arith) (omega arith),
)

pub or_lowest : (a b : ℕ) → bit_or a b ≡ 2 * bit_or (a / 2) (b / 2) + max (a % 2) (b % 2)
or_lowest zero b = omega (arith, bit_or-bitwise 0 b, bit_or-bitwise 0 (b / 2))
or_lowest (suc a) b = omega (
  arith,
  bit_or-bitwise (suc a) b,
  bit_or-bitwise (suc a / 2) (b / 2),
  enough_digits (λ y. y) max (suc a / 2) (b / 2) a (suc a / 2) (omega arith) (omega arith),
)

pub pow_split : (p s n : ℕ) → p + s ≡ n → 2 ^ p * 2 ^ s ≡ 2 ^ n
pow_split zero s n h = let e : n ≡ s = omega arith in rw e (omega arith)
pow_split (suc p) s zero h = absurd (omega arith)
pow_split (suc p) s (suc n) h =
    omega (
      arith,
      ap (λ (t : ℕ). t * 2 ^ s) (pow-succ' 2 p),
      pow-succ' 2 n,
      pow_split p s n (omega arith),
    )

and_zero_below : (n a : ℕ) → a < n → bit_and a 0 ≡ 0
and_zero_below zero a h = absurd (omega arith)
and_zero_below (suc n) zero h = refl
and_zero_below (suc n) (suc a) h =
    omega (arith, and_lowest (suc a) 0, and_zero_below n (suc a / 2) (omega arith))

pub and_zero : (a : ℕ) → bit_and a 0 ≡ 0
and_zero a = and_zero_below (suc a) a (omega arith)

or_zero_below : (n a : ℕ) → a < n → bit_or a 0 ≡ a
or_zero_below zero a h = absurd (omega arith)
or_zero_below (suc n) zero h = refl
or_zero_below (suc n) (suc a) h =
    omega (arith, or_lowest (suc a) 0, or_zero_below n (suc a / 2) (omega arith))

pub or_zero : (a : ℕ) → bit_or a 0 ≡ a
or_zero a = or_zero_below (suc a) a (omega arith)

mod_twice : (p a : ℕ) → 1 ≤ p → a % (2 * p) ≡ 2 * (a / 2 % p) + a % 2
mod_twice p a h =
    let low = 2 * (a / 2 % p) + a % 2 in
    let e : a ≡ low + (2 * p) * (a / 2 / p) = omega (arith, mod-add-div (a / 2) p) in
    ap (λ (t : ℕ). t % (2 * p)) e
    ∙ add-mul-mod_self_left low (2 * p) (a / 2 / p)
    ∙ mod-eq_of_lt (omega arith)

-- A mask of the k lowest bits is a remainder.
pub and_low_mask : (k a : ℕ) → bit_and a (2 ^ k - 1) ≡ a % 2 ^ k
and_low_mask zero a = omega (arith, and_zero a)
and_low_mask (suc k) a =
    let one_le : 1 ≤ 2 ^ k = one-le-pow k 2 (omega arith) in
    let twice : 2 ^ suc k ≡ 2 * 2 ^ k = pow-succ' 2 k in
    let half : (2 ^ suc k - 1) / 2 ≡ 2 ^ k - 1 = omega arith in
    omega (
      arith,
      and_lowest a (2 ^ suc k - 1),
      ap (λ (t : ℕ). bit_and (a / 2) t) half,
      and_low_mask k (a / 2),
      mod_twice (2 ^ k) a one_le,
      ap (λ (t : ℕ). a % t) twice,
    )

-- A mask whose k lowest bits are clear acts on the number without its k lowest bits.
pub and_shifted_mask : (k m a : ℕ) → bit_and a (m * 2 ^ k) ≡ bit_and (a / 2 ^ k) m * 2 ^ k
and_shifted_mask zero m a =
    let e : m * 1 ≡ m = omega arith in let e' : a / 1 ≡ a = omega arith in rw (e, e') (omega arith)
and_shifted_mask (suc k) m a =
    let e : m * 2 ^ suc k ≡ 2 * (m * 2 ^ k) =
      omega (arith, ap (λ (t : ℕ). m * t) (pow-succ' 2 k)) in
    let half : 2 * (m * 2 ^ k) / 2 ≡ m * 2 ^ k = omega arith in
    let quotient : a / 2 / 2 ^ k ≡ a / 2 ^ suc k =
      div-div-eq-div-mul a 2 (2 ^ k) ∙ ap (λ (t : ℕ). a / t) (sym (pow-succ' 2 k)) in
    rw e (
      omega (
        arith,
        and_lowest a (2 * (m * 2 ^ k)),
        ap (λ (t : ℕ). bit_and (a / 2) t) half,
        and_shifted_mask k m (a / 2),
        ap (λ (t : ℕ). bit_and t m * 2 ^ k) quotient,
        ap (λ (t : ℕ). bit_and (a / 2 ^ suc k) m * t) (pow-succ' 2 k),
      ))

-- One bit of a number, set or clear.
pub and_one_bit : (k a : ℕ) → bit_and a (2 ^ k) ≡ (a / 2 ^ k % 2) * 2 ^ k
and_one_bit k a =
    let e : 1 * 2 ^ k ≡ 2 ^ k = omega arith in
    rw e at (and_shifted_mask k 1 a ∙ ap (λ (t : ℕ). t * 2 ^ k) (and_low_mask 1 (a / 2 ^ k)))

-- The mask of the p highest of p + s bits, `MAX << s`, clears the s lowest.
pub and_high_mask :
    (p s n a : ℕ) → p + s ≡ n → a < 2 ^ n → bit_and a ((2 ^ p - 1) * 2 ^ s) ≡ a / 2 ^ s * 2 ^ s
and_high_mask p s n a e h =
    and_shifted_mask s (2 ^ p - 1) a
    ∙ ap (λ (t : ℕ). t * 2 ^ s)
        (and_low_mask p (a / 2 ^ s)
          ∙ mod-eq_of_lt (
              (div-lt_iff_lt-mul (one-le-pow s 2 (omega arith))).1
                (omega (arith, pow_split p s n e))))

shl_mask_sum : (p s m : ℕ) → suc p * suc s ≡ suc m → m * suc s ≡ p * suc s + suc m * s
shl_mask_sum p s m h = omega arith

-- The all-ones word shifted left, as the machine wraps it, clears the s lowest bits.
pub and_shl_mask :
    (p s n a : ℕ)
    → p + s ≡ n
    → a < 2 ^ n
    → bit_and a (((2 ^ n - 1) * 2 ^ s) % 2 ^ n) ≡ a / 2 ^ s * 2 ^ s
and_shl_mask p s n a e h =
    let split = pow_split p s n e in
    let one_p : suc (2 ^ p - 1) ≡ 2 ^ p = omega (arith, one-le-pow p 2 (omega arith)) in
    let one_s : suc (2 ^ s - 1) ≡ 2 ^ s = omega (arith, one-le-pow s 2 (omega arith)) in
    let one_n : suc (2 ^ n - 1) ≡ 2 ^ n = omega (arith, one-le-pow n 2 (omega arith)) in
    let sum : (2 ^ n - 1) * 2 ^ s ≡ (2 ^ p - 1) * 2 ^ s + 2 ^ n * (2 ^ s - 1) =
      (rw (one_s, one_n) at
        (shl_mask_sum (2 ^ p - 1) (2 ^ s - 1) (2 ^ n - 1) (rw (one_p, one_s, one_n) split))) in
    let wraps : ((2 ^ n - 1) * 2 ^ s) % 2 ^ n ≡ (2 ^ p - 1) * 2 ^ s =
      ap (λ (t : ℕ). t % 2 ^ n) sum
      ∙ add-mul-mod_self_left ((2 ^ p - 1) * 2 ^ s) (2 ^ n) (2 ^ s - 1)
      ∙ mod-eq_of_lt (omega (arith, split, one_p, one_s, one_n, ap (λ (t : ℕ). t * 2 ^ s) one_p)) in
    ap (bit_and a) wraps ∙ and_high_mask p s n a e h

pub sub_one_mul : (a b : ℕ) → 1 ≤ a → (a - 1) * b + b ≡ a * b
sub_one_mul zero b h = absurd (omega arith)
sub_one_mul (suc a) b h = let e : suc a - 1 ≡ a = omega arith in rw e (omega arith)

-- The mask `!(2 ^ k - 1)` of a u32 clears the k lowest bits.
pub and_not_mask :
    (k a : ℕ) → k ≤ 32 → a < 2 ^ 32 → bit_and a (0xFFFFFFFF - (2 ^ k - 1)) ≡ a / 2 ^ k * 2 ^ k
and_not_mask k a h small =
    let whole : (32 - k) + k ≡ 32 = omega arith in
    let split : 2 ^ (32 - k) * 2 ^ k ≡ 4294967296 = pow_split (32 - k) k 32 whole in
    let one_p = one-le-pow (32 - k) 2 (omega arith) in
    let one_k = one-le-pow k 2 (omega arith) in
    let mask : 0xFFFFFFFF - (2 ^ k - 1) ≡ (2 ^ (32 - k) - 1) * 2 ^ k =
      omega (arith, split, one_k, sub_one_mul (2 ^ (32 - k)) (2 ^ k) one_p) in
    ap (bit_and a) mask ∙ and_high_mask (32 - k) k 32 a whole small
