-- ===== src/SharedRing/Placing.antt =====
-- What `write_entry` and `write_skip_marker` of net/shared_ring.rs do to the packets of the ring.
use visor.Prelude.{
  ℕ, ◌+◌, ◌-◌, ◌%◌, ◌^◌, ◌≤◌, ◌<◌, ◌≡◌, ◌⊎◌, inl, inr, sym, ◌∙◌, List, [], ◌∷◌, ◌++◌, length, arith,
}
use native.Mathlib.Nat.{mod-eq_of_lt}
use visor.SharedRing.{
  Ring, write_entry, write_skip_marker, entry_size, copy_in, store_u32, skip_marker,
}
use visor.SharedRing.Memory.{
  copy_in-outside, copy_out-copy_in, load_u32-agree, load_u32-store_u32, store_u32-outside,
}
use visor.SharedRing.Positions.{entry_size-bounds, position-add, position-apart}
use visor.SharedRing.Content.{
  Stored, Content, nothing, entry, skip, Agree, Content-Agree, Content-append,
}

inside_or_outside : (i pos n : ℕ) → ((i < pos) ⊎ (pos + n ≤ i)) ⊎ ((pos ≤ i) × (i < pos + n))
inside_or_outside i pos n = ground arith

write_entry-outside :
    (ring : Ring) (idx : ℕ) (packet : List ℕ) (i : ℕ)
    → (i < idx % ring.capacity) ⊎ (idx % ring.capacity + 4 + length packet ≤ i)
    → write_entry ring idx packet i ≡ ring.bytes_at i
unfolding write_entry
write_entry-outside ring idx packet i h =
    let pos = idx % ring.capacity in
    copy_in-outside (store_u32 ring.bytes_at pos (length packet % 2 ^ 32)) (pos + 4) packet i
      (omega arith)
    ∙ store_u32-outside ring.bytes_at pos (length packet % 2 ^ 32) i (omega arith)

write_entry-Stored :
    (ring : Ring) (idx : ℕ) (packet : List ℕ)
    → length packet ≤ 9014
    → idx % ring.capacity + entry_size packet ≤ ring.capacity
    → Stored ring.capacity (write_entry ring idx packet) (idx % ring.capacity) packet
unfolding write_entry
write_entry-Stored ring idx packet h fits =
    let pos = idx % ring.capacity in
    let stored = store_u32 ring.bytes_at pos (length packet % 2 ^ 32) in
    record {
      small = h;
      ends_inside = fits;
      header =
          load_u32-agree (copy_in stored (pos + 4) packet) stored pos
            (λ i le lt. copy_in-outside stored (pos + 4) packet i (inl lt))
          ∙ load_u32-store_u32 ring.bytes_at pos (length packet % 2 ^ 32) (omega arith)
          ∙ mod-eq_of_lt (omega arith);
      payload = copy_out-copy_in stored (pos + 4) packet;
    }

-- A free stretch behind the write index meets no position of the content.
apart :
    (cap r w n x : ℕ)
    → w % cap + n ≤ cap
    → w + n ≤ r + cap
    → r ≤ x
    → x < w
    → (x % cap < w % cap) ⊎ (w % cap + n ≤ x % cap)
apart cap r w n x fits free le lt =
    let k = x % cap - w % cap in
    elim (inside_or_outside (x % cap) (w % cap) n) [
      | inl out ↦ out
      | inr within ↦ absurd (
          position-apart cap x (w + k) (omega (arith, within)) (omega (arith, within))
            (sym (position-add cap w k (omega (arith, within)) ∙ omega (arith, within))))
    ]

-- Writing an entry into a free stretch appends its packet.
pub place :
    (ring : Ring) (idx r : ℕ) (packets : List (List ℕ)) (packet : List ℕ)
    → length packet ≤ 9014
    → idx % ring.capacity + entry_size packet ≤ ring.capacity
    → idx + entry_size packet ≤ r + ring.capacity
    → Content ring.capacity ring.bytes_at r idx packets
    → Content ring.capacity
        (write_entry ring idx packet)
        r
        (idx + entry_size packet)
        (packets ++ packet ∷ [])
place ring idx r packets packet h fits free c =
    let (covers, most, even, positive) = entry_size-bounds packet h in
    let kept : Agree ring.capacity ring.bytes_at (write_entry ring idx packet) r idx = λ x le lt.
      sym (
        write_entry-outside ring idx packet (x % ring.capacity) (
          omega
            (arith, covers, apart ring.capacity r idx (entry_size packet) x fits free le lt))) in
    Content-append ring.capacity (write_entry ring idx packet) r idx (idx + entry_size packet)
      packets (packet ∷ [])
      (Content-Agree ring.capacity ring.bytes_at (write_entry ring idx packet) r idx packets c kept)
      (entry idx (idx + entry_size packet) packet [] (write_entry-Stored ring idx packet h fits)
        (nothing (idx + entry_size packet)))

-- The skip marker sends the reader from the write index to the start of the ring.
pub mark :
    (ring : Ring) (r w : ℕ) (packets : List (List ℕ))
    → 0 < w % ring.capacity
    → w % ring.capacity + 4 ≤ ring.capacity
    → w + 4 ≤ r + ring.capacity
    → Content ring.capacity ring.bytes_at r w packets
    → Content ring.capacity
        (write_skip_marker ring w)
        r
        (w + (ring.capacity - w % ring.capacity))
        (packets ++ [])
unfolding write_skip_marker
mark ring r w packets inside fits free c =
    let memory = store_u32 ring.bytes_at (w % ring.capacity) skip_marker in
    let kept : Agree ring.capacity ring.bytes_at memory r w = λ x le lt. sym (
      store_u32-outside ring.bytes_at (w % ring.capacity) skip_marker (x % ring.capacity)
        (apart ring.capacity r w 4 x fits free le lt)) in
    Content-append ring.capacity memory r w (w + (ring.capacity - w % ring.capacity)) packets []
      (Content-Agree ring.capacity ring.bytes_at memory r w packets c kept)
      (skip w (w + (ring.capacity - w % ring.capacity)) []
        (record {
          inside = inside;
          room = fits;
          marker = load_u32-store_u32 ring.bytes_at (w % ring.capacity) skip_marker (omega arith);
        })
        (nothing (w + (ring.capacity - w % ring.capacity))))
