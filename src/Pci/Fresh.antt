-- ===== src/Pci/Fresh.antt =====
-- The PCI function as transport/pci.rs creates it.
use native.Mathlib.Nat.{mod-add-div, one-le-pow, add-mul-mod_self_left, mod-eq_of_lt}
use visor.Prelude.{
  ℕ, zero, suc, ◌+◌, ◌-◌, ◌*◌, ◌/◌, ◌%◌, ◌^◌, ◌≤◌, ◌<◌, ◌≡◌, refl, sym, ap, ◌∙◌, bit_and, Bool,
  true, false, not, List, [], ◌∷◌, some, length, get_elem?, set, arith, ◌==◌, ltb, All, ◌&&◌,
}
use visor.Prelude.Bytes.{to_le_bytes}
use visor.Prelude.Bits.{and_low_mask, and_one_bit, pow_split, sub_one_mul}
use visor.Virtio.{DeviceType, type_code}
use visor.Pci.Device.{
  PciDevice, BarRegion, new, initial_config, initial_bars, set_type_bits, default_bar,
  to_le_bytes_u16, bar4_size, read_config, write_config, div_ceil_64, byte_at,
  virtio_pci_device_id_base,
}
use visor.Pci.Config.{IsValid}
use visor.Pci.Bars.{bar4_size_lem, read_config-write_config}

and_false : (b : Bool) → (b && false) ≡ false
and_false true = refl
and_false false = refl

-- Without I/O bars no type bit is set.
memory_bars :
    (config : List ℕ) (bars : List BarRegion) (i : ℕ)
    → All (λ (bar : BarRegion). bar.is_io ≡ false) bars
    → set_type_bits config bars i ≡ config
unfolding set_type_bits
memory_bars config [] i h = refl
memory_bars config (bar ∷ bars) i (mem, h) =
    rw (mem, and_false (ltb 0 bar.size)) (memory_bars config bars (suc i) h)

initial_bars-memory :
    (num_vectors : ℕ) → All (λ (bar : BarRegion). bar.is_io ≡ false) (initial_bars num_vectors)
unfolding initial_bars default_bar
initial_bars-memory num_vectors = (refl, (refl, (refl, (refl, (refl, (refl, tt))))))

initial_config-length :
    (device_id num_vectors : ℕ)
    → (length (initial_config device_id num_vectors) ≡ 256)
      × (byte_at (initial_config device_id num_vectors) 0x43
          ≡ bit_and ((num_vectors - 1) / 256) 0x07)
unfolding initial_config to_le_bytes_u16 to_le_bytes visor.Prelude.Bytes.copy_at
initial_config-length device_id num_vectors = (refl, refl)

-- The control bits of a table size, which are below bit 3.
low_control : (n : ℕ) → bit_and (bit_and n 0x07) 0x80 ≡ 0
low_control n = omega (arith, and_low_mask 3 n, and_one_bit 7 (bit_and n 0x07))

-- All ones with the k lowest bits cleared.
ones_above : (k : ℕ) → k ≤ 32 → 0xFFFFFFFF / 2 ^ k * 2 ^ k ≡ 2 ^ 32 - 2 ^ k
ones_above k h =
    let split : 2 ^ (32 - k) * 2 ^ k ≡ 4294967296 = pow_split (32 - k) k 32 (omega arith) in
    let one_k = one-le-pow k 2 (omega arith) in
    let one_p = one-le-pow (32 - k) 2 (omega arith) in
    let sum : 0xFFFFFFFF ≡ (2 ^ k - 1) + 2 ^ k * (2 ^ (32 - k) - 1) =
      omega (arith, split, one_k, sub_one_mul (2 ^ (32 - k)) (2 ^ k) one_p) in
    let low : 0xFFFFFFFF % 2 ^ k ≡ 2 ^ k - 1 =
      ap (λ (t : ℕ). t % 2 ^ k) sum
      ∙ add-mul-mod_self_left (2 ^ k - 1) (2 ^ k) (2 ^ (32 - k) - 1)
      ∙ mod-eq_of_lt (omega (arith, one_k)) in
    omega (arith, mod-add-div 0xFFFFFFFF (2 ^ k), low, one_k)

module _ {D : Type 0} (M E : Type 0) (device_type : DeviceType) (device : D) (num_vectors : ℕ) where
  abbrev fresh : PciDevice D M E
  fresh = new device_type device num_vectors

  fresh_config :
      fresh.config ≡ initial_config (virtio_pci_device_id_base + type_code device_type) num_vectors
  unfolding new
  fresh_config = memory_bars _ (initial_bars num_vectors) 0 (initial_bars-memory num_vectors)

  pub new-IsValid : IsValid fresh
  unfolding new initial_bars
  new-IsValid =
      let (len, control) =
        initial_config-length (virtio_pci_device_id_base + type_code device_type) num_vectors in
      let off : bit_and (byte_at fresh.config 0x43) 0x80 ≡ 0 =
        rw (fresh_config, control) (low_control ((num_vectors - 1) / 256)) in
      (ap length fresh_config ∙ len, refl, rw off refl)

  -- A driver that probes bar 4 of a new function with all ones reads the complement of the size: a power
  -- of two that holds the MSI-X table and the pending bits.
  pub probe-new :
      (a b c e : ℕ)
      → num_vectors < 2 ^ 16
      → (read_config
            (write_config fresh 0x20 (255 ∷ 255 ∷ 255 ∷ 255 ∷ []))
            0x20
            (a ∷ b ∷ c ∷ e ∷ [])
          ≡ to_le_bytes (2 ^ 32 - bar4_size num_vectors))
        × (num_vectors * 16 + div_ceil_64 num_vectors * 8 ≤ bar4_size num_vectors)
  unfolding to_le_bytes new initial_bars
  probe-new a b c e small =
      let (bound, holds) = bar4_size_lem num_vectors small in
      let (k, size, low, high) = bound in
      let bar : BarRegion = record { size = bar4_size num_vectors; is_io = false } in
      (
        read_config-write_config fresh 4 k 0xFFFFFFFF bar a b c e new-IsValid (omega arith) refl
              refl size (omega arith) high (omega arith)
            ∙ ap to_le_bytes (ones_above k (omega arith) ∙ ap (λ (t : ℕ). 2 ^ 32 - t) (sym size)),
        holds,
      )
