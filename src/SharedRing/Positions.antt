-- ===== src/SharedRing/Positions.antt =====
-- The positions of the ring of net/shared_ring.rs: indices modulo the capacity, and sizes of entries.
use visor.Prelude.{
  ℕ, ◌+◌, ◌-◌, ◌*◌, ◌/◌, ◌%◌, ◌≤◌, ◌<◌, ◌≡◌, ◌≢◌, refl, ap, ◌∙◌, List, length, arith,
}
use visor.Prelude.Bits.{and_high_mask}
use native.Mathlib.Nat.{mod-eq_of_lt, mod-add-div, add-mul-mod_self_left}
use visor.SharedRing.{align_up, entry_size}

-- An entry has room for its header and its packet, and keeps the alignment.
pub entry_size-bounds :
    (packet : List ℕ)
    → length packet ≤ 9014
    → (4 + length packet ≤ entry_size packet)
      × (entry_size packet ≤ 9024)
      × (entry_size packet % 8 ≡ 0)
      × (0 < entry_size packet)
unfolding align_up
entry_size-bounds packet h =
    let e = and_high_mask 61 3 64 (4 + length packet + 8 - 1) refl (omega arith) in
    (omega (arith, e), omega (arith, e), omega (arith, e), omega (arith, e))

-- A step that stays below the end of the ring moves the position by as much.
pub position-add : (cap i k : ℕ) → i % cap + k < cap → (i + k) % cap ≡ i % cap + k
position-add cap i k h =
    let e : i + k ≡ (i % cap + k) + cap * (i / cap) = omega (arith, mod-add-div i cap) in
    ap (λ (t : ℕ). t % cap) e ∙ add-mul-mod_self_left (i % cap + k) cap (i / cap) ∙ mod-eq_of_lt h

-- A step to the end of the ring moves the position to the start.
pub position-end : (cap i k : ℕ) → 0 < cap → i % cap + k ≡ cap → (i + k) % cap ≡ 0
position-end cap i k c h =
    let e : i + k ≡ 0 + cap * (i / cap + 1) = omega (arith, mod-add-div i cap) in
    ap (λ (t : ℕ). t % cap) e ∙ add-mul-mod_self_left 0 cap (i / cap + 1) ∙ mod-eq_of_lt c

mul_le_mul : (c a b : ℕ) → a ≤ b → c * a ≤ c * b
mul_le_mul c a b h = let e : b ≡ a + (b - a) = omega arith in omega (arith, ap (λ (t : ℕ). c * t) e)

-- Two indices less than the capacity apart have one position only if they are equal.
pub position-apart : (cap a b : ℕ) → a < b → b < a + cap → a % cap ≢ b % cap
position-apart cap a b h k e =
    let qa = a / cap in
    let qb = b / cap in
    grind (
      arith,
      mod-add-div a cap,
      mod-add-div b cap,
      mul_le_mul cap qb qa,
      mul_le_mul cap (qa + 1) qb,
    )
