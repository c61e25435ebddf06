-- ===== src/SharedRing/Queue/Sending.antt =====
-- `try_send` of net/shared_ring.rs.
use visor.Prelude.{
  ℕ, ◌+◌, ◌-◌, ◌*◌, ◌%◌, ◌^◌, ◌≤◌, ◌<◌, ◌≡◌, ◌⊎◌, inl, inr, refl, ap, subst, ◌∙◌, Bool, true, false,
  List, [], ◌∷◌, ◌++◌, length, leb, ltb, if_cases, arith,
}
use native.Mathlib.Nat.{mod-eq_of_lt, mod-lt}
use visor.SharedRing.{
  Ring, try_send, send_here, send_wrapped, write_skip_marker, available_space, entry_size,
}
use visor.SharedRing.Positions.{entry_size-bounds, position-add, position-end}
use visor.SharedRing.Content.{Content, Content-ordered}
use visor.SharedRing.Queue.{Holds}
use visor.SharedRing.Placing.{place, mark}

append-nil : (packets : List (List ℕ)) → packets ++ [] ≡ packets
append-nil [] = refl
append-nil (packet ∷ rest) = ap (λ (t : List (List ℕ)). packet ∷ t) (append-nil rest)

position-aligned :
    (cap i k : ℕ)
    → 0 < cap
    → i % cap + k ≤ cap
    → i % cap % 8 ≡ 0
    → k % 8 ≡ 0
    → (i + k) % cap % 8 ≡ 0
position-aligned cap i k c h a b = elim (end_or_before (i % cap + k) cap h) [
  | inl e ↦ ap (λ (t : ℕ). t % 8) (position-end cap i k c e)
  | inr lt ↦ ap (λ (t : ℕ). t % 8) (position-add cap i k lt) ∙ omega arith
]
  where
    end_or_before : (a b : ℕ) → a ≤ b → (a ≡ b) ⊎ (a < b)
    end_or_before a b h = ground arith

-- A packet that is sent stands behind the others; one that is refused leaves the ring as it was,
-- and is too long or finds less free than twice its entry.
abbrev pub Sent : Ring → List (List ℕ) → List ℕ → Ring × Bool → Type 0
Sent ring packets packet result =
    ((result.1 ≡ true)
      × Holds result.0 (packets ++ packet ∷ [])
      × (result.0.capacity ≡ ring.capacity)
      × (result.0.write_idx ≤ ring.write_idx + 2 * ring.capacity))
    ⊎ ((result.1 ≡ false)
        × (result.0 ≡ ring)
        × ((9014 < length packet) ⊎ (available_space ring < 2 * entry_size packet)))

send_here-Holds :
    (ring : Ring) (packets : List (List ℕ)) (packet : List ℕ)
    → Holds ring packets
    → ring.write_idx + 2 * ring.capacity < 2 ^ 64
    → length packet ≤ 9014
    → ring.write_idx % ring.capacity + entry_size packet ≤ ring.capacity
    → Sent ring packets packet (send_here ring packet)
unfolding send_here available_space
send_here-Holds ring packets packet v far h fits =
    let (covers, most, even, positive) = entry_size-bounds packet h in
    let w = ring.write_idx in
    let ordered = Content-ordered _ _ _ _ packets v.content in
    let same : (w + entry_size packet) % 2 ^ 64 ≡ w + entry_size packet =
      mod-eq_of_lt (omega (arith, v.large)) in
    if_cases (Sent ring packets packet)
      (leb (entry_size packet) (ring.capacity - (w - ring.read_idx)))
      (λ yes. inl (
        refl,
        record {
          large = v.large;
          aligned = v.aligned;
          write_aligned =
              ap (λ (t : ℕ). t % ring.capacity % 8) same
              ∙ position-aligned ring.capacity w (entry_size packet) (omega (arith, v.large)) fits
                  v.write_aligned even;
          word = omega arith;
          room = ground (arith, v.room, same, ordered, v.large);
          content = rw same (
              place ring w ring.read_idx packets packet h fits
                (ground (arith, v.room, ordered, positive)) v.content);
        },
        refl,
        ground (arith, same, fits),
      ))
      (λ no. inr (refl, refl, inr (ground (arith, no, positive))))

send_wrapped-Holds :
    (ring : Ring) (packets : List (List ℕ)) (packet : List ℕ)
    → Holds ring packets
    → ring.write_idx + 2 * ring.capacity < 2 ^ 64
    → length packet ≤ 9014
    → ring.capacity < ring.write_idx % ring.capacity + entry_size packet
    → Sent ring packets packet (send_wrapped ring packet)
unfolding send_wrapped available_space
send_wrapped-Holds ring packets packet v far h wraps =
    let (covers, most, even, positive) = entry_size-bounds packet h in
    let cap = ring.capacity in
    let w = ring.write_idx in
    let gap = cap - w % cap in
    let ordered = Content-ordered _ _ _ _ packets v.content in
    let below : w % cap < cap = mod-lt w (omega (arith, v.large)) in
    let room_4 : w % cap + 4 ≤ cap = omega (arith, v.aligned, v.write_aligned, below) in
    let same : (w + gap) % 2 ^ 64 ≡ w + gap = mod-eq_of_lt (omega (arith, v.large)) in
    let same' : (w + gap + entry_size packet) % 2 ^ 64 ≡ w + gap + entry_size packet =
      mod-eq_of_lt (omega (arith, v.large)) in
    let start : (w + gap) % cap ≡ 0 =
      position-end cap w gap (omega (arith, v.large)) (omega arith) in
    let marked = record ring { bytes_at = write_skip_marker ring w } in
    if_cases (Sent ring packets packet) (leb (gap + entry_size packet) (cap - (w - ring.read_idx)))
      (λ yes. inl (
        refl,
        rw same (record {
          large = v.large;
          aligned = v.aligned;
          write_aligned =
              ap (λ (t : ℕ). t % cap % 8) same'
              ∙ position-aligned cap (w + gap) (entry_size packet) (omega (arith, v.large))
                  (omega (arith, v.large, start)) (omega (arith, start)) even;
          word = omega arith;
          room = ground (arith, v.room, same', ordered, v.large);
          content = rw same' (
              place marked (w + gap) ring.read_idx packets packet h (omega (arith, v.large, start))
                (ground (arith, v.room, ordered, positive))
                (subst
                  (λ (l : List (List ℕ)).
                    Content cap (write_skip_marker ring w) ring.read_idx (w + gap) l)
                  (append-nil packets)
                  (mark ring ring.read_idx w packets (omega (arith, v.large)) room_4
                    (ground (arith, v.room, ordered, covers)) v.content)));
        }),
        refl,
        rw (same, same') (omega (arith, most, v.large)),
      ))
      (λ no. inr (refl, refl, inr (ground (arith, no, wraps, below))))

-- `try_send` on a ring that holds packets, with indices that do not come near 2^64: a packet that is sent
-- stands behind the others; one that is refused leaves the ring as it was, and is too long or finds less
-- free than twice its entry.
pub try_send-Holds :
    (ring : Ring) (packets : List (List ℕ)) (packet : List ℕ)
    → Holds ring packets
    → ring.write_idx + 2 * ring.capacity < 2 ^ 64
    → Sent ring packets packet (try_send ring packet)
unfolding try_send
try_send-Holds ring packets packet v far =
    if_cases (Sent ring packets packet) (ltb 9014 (length packet))
      (λ long. inr (refl, refl, inl (ground (arith, long))))
      (λ short.
        if_cases (Sent ring packets packet)
          (leb (ring.write_idx % ring.capacity + entry_size packet) ring.capacity)
          (λ fits.
            send_here-Holds ring packets packet v far (ground (arith, short))
              (ground (arith, fits)))
          (λ wraps.
            send_wrapped-Holds ring packets packet v far (ground (arith, short))
              (ground (arith, wraps))))
