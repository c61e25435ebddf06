-- ===== src/SharedRing/Queue/Receiving.antt =====
-- `try_recv` of net/shared_ring.rs.
use visor.Prelude.{
  ℕ, suc, ◌+◌, ◌-◌, ◌%◌, ◌^◌, ◌≤◌, ◌≡◌, refl, ap, subst, ◌∙◌, false, List, [], ◌∷◌, Option, none,
  some, length, leb, ltb, ◌==◌, if◌then◌else◌, Bool-cases, inl, inr, arith,
}
use native.Mathlib.Nat.{mod-eq_of_lt}
use visor.SharedRing.{Ring, try_recv, receive, entry_size, load_u32, skip_marker}
use visor.SharedRing.Positions.{entry_size-bounds, position-end}
use visor.SharedRing.Content.{Stored, Marked, Content, nothing, entry, skip, Content-ordered}
use visor.SharedRing.Queue.{Holds}

-- What a queue of packets does for a reader with a buffer of that size: the oldest packet is taken, unless
-- it does not fit; then it stays.
unfoldable pub dequeue : ℕ → List (List ℕ) → Option (List ℕ) × List (List ℕ)
dequeue buf_len [] = (none, [])
dequeue buf_len (packet ∷ rest) =
    if ltb buf_len (length packet) then (none, packet ∷ rest) else (some packet, rest)

-- The reader gets what the queue gives, and the ring, whose write index is as before, holds what the
-- queue keeps.
abbrev pub Received : Ring → ℕ → List (List ℕ) → Option (Ring × Option (List ℕ)) → Type 0
Received ring buf_len packets result =
    (after : Ring) × (result ≡ some (after, (dequeue buf_len packets).0))
    × Holds after (dequeue buf_len packets).1
    × (after.capacity ≡ ring.capacity)
    × (after.write_idx ≡ ring.write_idx)

-- The ring with another read index.
moved-Holds :
    (ring : Ring) (packets rest : List (List ℕ)) (r : ℕ)
    → Holds ring packets
    → ring.read_idx ≤ r
    → Content ring.capacity ring.bytes_at r ring.write_idx rest
    → Holds (record ring { read_idx = r }) rest
moved-Holds ring packets rest r v le c = record {
  large = v.large;
  aligned = v.aligned;
  write_aligned = v.write_aligned;
  word = v.word;
  room = omega (arith, v.room);
  content = c;
}

recv_nothing :
    (fuel : ℕ) (ring : Ring) (buf_len : ℕ)
    → Holds ring []
    → ring.write_idx ≤ ring.read_idx
    → Received ring buf_len [] (try_recv (suc fuel) ring buf_len)
unfolding try_recv dequeue
recv_nothing fuel ring buf_len v le = (ring, ground arith, v, refl, refl)

recv_entry :
    (fuel : ℕ) (ring : Ring) (packet : List ℕ) (rest : List (List ℕ)) (buf_len : ℕ)
    → Holds ring (packet ∷ rest)
    → Stored ring.capacity ring.bytes_at (ring.read_idx % ring.capacity) packet
    → Content ring.capacity ring.bytes_at (ring.read_idx + entry_size packet) ring.write_idx rest
    → Received ring buf_len (packet ∷ rest) (try_recv (suc fuel) ring buf_len)
unfolding try_recv receive dequeue
recv_entry fuel ring packet rest buf_len v s c =
    let (covers, most, even, positive) = entry_size-bounds packet s.small in
    let ordered = Content-ordered _ _ _ _ rest c in
    let same : (ring.read_idx + entry_size packet) % 2 ^ 64 ≡ ring.read_idx + entry_size packet =
      mod-eq_of_lt (omega (arith, v.word)) in
    let now : leb ring.write_idx ring.read_idx ≡ false = ground arith in
    let packet_here : load_u32 ring.bytes_at (ring.read_idx % ring.capacity) == skip_marker
        ≡ false =
      ground (arith, s.header, s.small) in
    elim (Bool-cases (ltb buf_len (length packet))) [
      | inl large ↦ (ring, rw (now, packet_here, s.header, large) refl, rw large v, refl, refl)
      | inr small ↦ (
        record ring { read_idx = ring.read_idx + entry_size packet },
        rw (now, packet_here, s.header, small, same, s.payload) refl,
        rw small (moved-Holds ring (packet ∷ rest) rest _ v (omega arith) c),
        refl,
        refl,
      )
    ]

-- With the read index at the start of the ring, where no marker stands.
recv_start :
    (fuel : ℕ) (ring : Ring) (packets : List (List ℕ)) (buf_len r w : ℕ)
    → Holds ring packets
    → ring.read_idx % ring.capacity ≡ 0
    → r ≡ ring.read_idx
    → w ≡ ring.write_idx
    → Content ring.capacity ring.bytes_at r w packets
    → Received ring buf_len packets (try_recv (suc fuel) ring buf_len)
recv_start fuel ring _ buf_len _ _ v start e f (nothing i) =
    recv_nothing fuel ring buf_len v (omega arith)
recv_start fuel ring _ buf_len _ _ v start e f (entry r w packet rest s c) =
    recv_entry fuel ring packet rest buf_len v
      (subst (λ (x : ℕ). Stored ring.capacity ring.bytes_at (x % ring.capacity) packet) e s)
      (subst
        (λ (y : ℕ). Content ring.capacity ring.bytes_at (ring.read_idx + entry_size packet) y rest)
        f
        (subst (λ (x : ℕ). Content ring.capacity ring.bytes_at (x + entry_size packet) w rest) e c))
recv_start fuel ring packets buf_len _ _ v start e f (skip r w rest m c) =
    absurd (omega (arith, m.inside, ap (λ (x : ℕ). x % ring.capacity) e))

skip_step :
    (fuel : ℕ) (ring : Ring) (buf_len next : ℕ)
    → leb ring.write_idx ring.read_idx ≡ false
    → load_u32 ring.bytes_at (ring.read_idx % ring.capacity) ≡ skip_marker
    → (ring.read_idx + (ring.capacity - ring.read_idx % ring.capacity)) % 2 ^ 64 ≡ next
    → try_recv (suc fuel) ring buf_len ≡ try_recv fuel (record ring { read_idx = next }) buf_len
unfolding try_recv
skip_step fuel ring buf_len next now marker same = rw (now, marker, same) refl

recv_skip :
    (ring : Ring) (packets : List (List ℕ)) (buf_len : ℕ)
    → Holds ring packets
    → Marked ring.capacity ring.bytes_at (ring.read_idx % ring.capacity)
    → Content ring.capacity ring.bytes_at
        (ring.read_idx + (ring.capacity - ring.read_idx % ring.capacity))
        ring.write_idx
        packets
    → Received ring buf_len packets (try_recv 2 ring buf_len)
recv_skip ring packets buf_len v m c =
    let gap = ring.capacity - ring.read_idx % ring.capacity in
    let ordered = Content-ordered _ _ _ _ packets c in
    let same : (ring.read_idx + gap) % 2 ^ 64 ≡ ring.read_idx + gap =
      mod-eq_of_lt (omega (arith, v.word)) in
    let now : leb ring.write_idx ring.read_idx ≡ false = ground (arith, m.room) in
    let start =
      position-end ring.capacity ring.read_idx gap (omega (arith, v.large))
        (omega (arith, m.room)) in
    let skipped = record ring { read_idx = ring.read_idx + gap } in
    let (after, e, held, same_cap, same_write) =
      recv_start 0 skipped packets buf_len (ring.read_idx + gap) ring.write_idx
        (moved-Holds ring packets packets (ring.read_idx + gap) v (omega arith) c) start refl refl
        c in
    (
      after,
      skip_step 1 ring buf_len (ring.read_idx + gap) now m.marker same ∙ e,
      held,
      same_cap,
      same_write,
    )

recv_at :
    (ring : Ring) (packets : List (List ℕ)) (buf_len r w : ℕ)
    → Holds ring packets
    → r ≡ ring.read_idx
    → w ≡ ring.write_idx
    → Content ring.capacity ring.bytes_at r w packets
    → Received ring buf_len packets (try_recv 2 ring buf_len)
recv_at ring _ buf_len _ _ v e f (nothing i) = recv_nothing 1 ring buf_len v (omega arith)
recv_at ring _ buf_len _ _ v e f (entry r w packet rest s c) =
    recv_entry 1 ring packet rest buf_len v
      (subst (λ (x : ℕ). Stored ring.capacity ring.bytes_at (x % ring.capacity) packet) e s)
      (subst
        (λ (y : ℕ). Content ring.capacity ring.bytes_at (ring.read_idx + entry_size packet) y rest)
        f
        (subst (λ (x : ℕ). Content ring.capacity ring.bytes_at (x + entry_size packet) w rest) e c))
recv_at ring packets buf_len _ _ v e f (skip r w rest m c) =
    recv_skip ring packets buf_len v
      (subst (λ (x : ℕ). Marked ring.capacity ring.bytes_at (x % ring.capacity)) e m)
      (subst
        (λ (y : ℕ).
          Content ring.capacity ring.bytes_at
            (ring.read_idx + (ring.capacity - ring.read_idx % ring.capacity)) y packets)
        f
        (subst
          (λ (x : ℕ).
            Content ring.capacity ring.bytes_at (x + (ring.capacity - x % ring.capacity)) w packets)
          e c))

-- `try_recv` ends after one recursion at most, on a ring that holds packets: the reader gets the oldest one,
-- or nothing if there is none or it is larger than the buffer, and the ring holds the others, or the same.
pub try_recv-Holds :
    (ring : Ring) (packets : List (List ℕ)) (buf_len : ℕ)
    → Holds ring packets
    → Received ring buf_len packets (try_recv 2 ring buf_len)
try_recv-Holds ring packets buf_len v =
    recv_at ring packets buf_len ring.read_idx ring.write_idx v refl refl v.content
