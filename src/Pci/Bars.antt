-- ===== src/Pci/Bars.antt =====
-- The size of a bar, as the driver finds it through the configuration space of transport/pci.rs.
use visor.Prelude.{
  ℕ, zero, suc, ◌+◌, ◌-◌, ◌*◌, ◌/◌, ◌%◌, ◌^◌, ◌≤◌, ◌<◌, ◌≡◌, ◌≢◌, inl, inr, refl, sym, ap, ◌∙◌,
  bit_and, true, false, List, [], ◌∷◌, some, length, get_elem?, ltb, leb, ◌==◌, arith, leb→le,
  Bool-cases, max,
}
use native.Mathlib.Nat.{mod-add-div, one-le-pow, pow-succ'}
use visor.Prelude.Bits.{and_not_mask, or_zero, pow_split}
use visor.Prelude.Bytes.{not_u32, to_le_bytes, from_le_bytes-to_le_bytes}
use visor.Pci.Device.{
  PciDevice, BarRegion, read_config, write_config, write_config_byte, write_config_bytes,
  write_bar_register, write_bar_region, bar_value, bar4_size, doubled_until, pba_offset,
  div_ceil_64,
}
use visor.Pci.Config.{IsValid, read_bytes-copy_at}

-- A memory bar of 2 ^ k bytes keeps the bits of an address above the size.
bar_value_lem :
    (bar : BarRegion) (k value : ℕ)
    → bar.is_io ≡ false
    → bar.size ≡ 2 ^ k
    → 4 ≤ k
    → k < 32
    → value < 2 ^ 32
    → bar_value bar value ≡ value / 2 ^ k * 2 ^ k
unfolding bar_value
bar_value_lem bar k value mem size low high small =
    let above = value / 2 ^ k * 2 ^ k in
    let sixteenths : 2 ^ (k - 4) * 16 ≡ 2 ^ k = pow_split (k - 4) 4 k (omega arith) in
    let below : above < 2 ^ 32 = omega (arith, mod-add-div value (2 ^ k)) in
    let even : above / 16 * 16 ≡ above = (rw (sym sixteenths) (omega arith)) in
    rw (mem, size)
      (or_zero _
        ∙ ap (λ (t : ℕ). bit_and t (not_u32 0x0F)) (and_not_mask k value (omega arith) small)
        ∙ and_not_mask 4 above (omega arith) below
        ∙ even)

module _ {D M E : Type 0} where
  -- Bytes written to the registers of the bars are not stored one by one.
  bytes-same :
      (d : PciDevice D M E) (start : ℕ) (bytes : List ℕ)
      → 0x10 ≤ start
      → start + length bytes ≤ 0x28
      → write_config_bytes d start bytes ≡ d
  unfolding write_config_bytes write_config_byte
  bytes-same d start [] low high = refl
  bytes-same d start (byte ∷ rest) low high =
      let here : write_config_byte d start byte ≡ d = ground arith in
      rw here (bytes-same d (suc start) rest (omega arith) (omega arith))

  aligned_write :
      (d : PciDevice D M E) (bar_idx value : ℕ)
      → bar_idx < 6
      → value < 2 ^ 32
      → write_config d (0x10 + bar_idx * 4) (to_le_bytes value) ≡ write_bar_register d bar_idx value
  unfolding write_config to_le_bytes
  aligned_write d bar_idx value small word =
      let start = 0x10 + bar_idx * 4 in
      let index : (start - 0x10) / 4 ≡ bar_idx = omega arith in
      let low : leb 0x10 start ≡ true = ground arith in
      let high : leb start 0x24 ≡ true = ground arith in
      let aligned : ((start - 0x10) % 4 == 0) ≡ true = ground arith in
      let fits : ltb bar_idx 6 ≡ true = ground arith in
      rw
        (
          low,
          high,
          aligned,
          index,
          fits,
          bytes-same d start (to_le_bytes value) (omega arith) (omega arith),
          from_le_bytes-to_le_bytes value word,
        )
        refl

  -- The size of a bar is found by the standard probe: what the driver writes to the register of a memory
  -- bar of 2 ^ k bytes, 4 ≤ k < 32, it reads back with the k lowest bits cleared; all ones give the size.
  pub read_config-write_config :
      (d : PciDevice D M E) (bar_idx k value : ℕ) (bar : BarRegion) (a b c e : ℕ)
      → IsValid d
      → bar_idx < 6
      → get_elem? d.bars bar_idx ≡ some bar
      → bar.is_io ≡ false
      → bar.size ≡ 2 ^ k
      → 4 ≤ k
      → k < 32
      → value < 2 ^ 32
      → read_config
          (write_config d (0x10 + bar_idx * 4) (to_le_bytes value))
          (0x10 + bar_idx * 4)
          (a ∷ b ∷ c ∷ e ∷ [])
        ≡ to_le_bytes (value / 2 ^ k * 2 ^ k)
  unfolding read_config write_bar_register write_bar_region to_le_bytes
  read_config-write_config d bar_idx k value bar a b c e (len, _, _) small at mem size low high
        word =
      let nonzero : (bar.size == 0) ≡ false = ground (arith, one-le-pow k 2 (omega arith)) in
      rw (aligned_write d bar_idx value small word, at, nonzero)
        (read_bytes-copy_at d.config (λ old. 0xFF) (0x10 + bar_idx * 4)
            (to_le_bytes (bar_value bar value)) (a ∷ b ∷ c ∷ e ∷ []) refl (omega arith)
          ∙ ap to_le_bytes (bar_value_lem bar k value mem size low high word))

-- Doubling ends at the least power of two that is large enough, if the fuel reaches one that is.
doubled_until_lem :
    (fuel k n m : ℕ)
    → k ≤ m
    → m ≤ fuel + k
    → n ≤ 2 ^ m
    → (j : ℕ) × (doubled_until fuel (2 ^ k) n ≡ 2 ^ j) × (n ≤ 2 ^ j) × (j ≤ m)
unfolding doubled_until
doubled_until_lem zero k n m low high h =
    let e : k ≡ m = omega arith in (m, ap (λ (t : ℕ). 2 ^ t) e, h, omega arith)
doubled_until_lem (suc fuel) k n m low high h = elim (Bool-cases (leb n (2 ^ k))) [
  | inl fits ↦ (k, rw fits refl, leb→le n (2 ^ k) fits, low)
  | inr short ↦
      (let other : k ≢ m = λ (e : k ≡ m). ground (arith, rw (sym e) at h) in
        let (j, e, covers, below) =
          doubled_until_lem fuel (suc k) n m (omega arith) (omega arith) h in
        (j, rw (short, sym (pow-succ' 2 k)) e, covers, below))
]

at_least_page : (j : ℕ) → j < 32 → (k : ℕ) × (max (2 ^ j) 4096 ≡ 2 ^ k) × (12 ≤ k) × (k < 32)
at_least_page j small = elim (Bool-cases (leb 12 j)) [
  | inl large ↦
      (let above = leb→le 12 j large in
        let split : 2 ^ (j - 12) * 4096 ≡ 2 ^ j = pow_split (j - 12) 12 j (omega arith) in
        (j, omega (arith, split, one-le-pow (j - 12) 2 (omega arith)), above, small))
  | inr little ↦
      (let split : 2 ^ j * 2 ^ (12 - j) ≡ 4096 = pow_split j (12 - j) 12 (ground arith) in
        let below : 2 ^ j ≤ 4096 = grind (arith, split, one-le-pow (12 - j) 2 (omega arith)) in
        (12, omega (arith, below), omega arith, omega arith))
]

-- The bar of the MSI-X table is a power of two of at least 4096 bytes, and holds the table and the pending
-- bits.
pub bar4_size_lem :
    (num_vectors : ℕ)
    → num_vectors < 2 ^ 16
    → ((k : ℕ) × (bar4_size num_vectors ≡ 2 ^ k) × (12 ≤ k) × (k < 32))
      × (num_vectors * 16 + div_ceil_64 num_vectors * 8 ≤ bar4_size num_vectors)
unfolding bar4_size pba_offset
bar4_size_lem num_vectors small =
    let table = and_not_mask 4 (num_vectors * 16 + 15) (omega arith) (omega arith) in
    let needed = bit_and (num_vectors * 16 + 15) (not_u32 15) + div_ceil_64 num_vectors * 8 in
    let (j, e, covers, below) =
      doubled_until_lem 32 0 needed 21 (omega arith) (omega arith) (omega (arith, table)) in
    let (k, size, low, high) = at_least_page j (omega arith) in
    ((k, ap (λ (t : ℕ). max t 4096) e ∙ size, low, high), omega (arith, table, e, covers))
