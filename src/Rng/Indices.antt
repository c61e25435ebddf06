-- ===== src/Rng/Indices.antt =====
-- The requests of a queue of rng.rs: what it is to answer one, and how processing ends.
use visor.Prelude.{
  ℕ, zero, suc, ◌+◌, ◌-◌, ◌*◌, ◌%◌, ◌^◌, ◌≤◌, ◌<◌, ◌≡◌, refl, sym, ap, ◌∙◌, Bool, true, false, not,
  ◌||◌, List, subst, Result, ok, err, arith, ◌==◌, if_cases, take,
}
use visor.Prelude.Bytes.{to_le_bytes, from_le_bytes}
use visor.Memory.{GuestMemory, MemoryError, read_bytes, write_bytes}
use visor.Virtio.{VirtQueue}
use visor.Rng.{
  RngError, Work, Outcome, and_then, from_address, read_from, write_to, fill_chain, advance, serve,
  finish, process_from, process_queue,
}
use visor.Rng.Keeping.{IsOfSource, Keeps, chain-Keeps}

abbrev used_slot : VirtQueue → ℕ
used_slot q = from_address q.used_ring_addr (4 + q.last_used_idx % q.size * 8)

-- One request between two states: the chain at the next slot of the available ring was filled, and the entry
-- of the next slot of the used ring is written, with the chain's head and the number of its bytes.
pub record Answered (w v : Work) : Type 0 where
  pub bytes : List ℕ
  pub filled : Work
  pub count : ℕ
  pub entry : GuestMemory
  pub slot_read :
      read_bytes w.memory
        (from_address w.queue.avail_ring_addr (4 + w.queue.last_avail_idx % w.queue.size * 2))
        2
      ≡ ok bytes
  pub chain_filled : fill_chain (from_le_bytes bytes) w ≡ (filled, ok count)
  pub head_written :
      write_bytes filled.memory (used_slot w.queue) (to_le_bytes (from_le_bytes bytes)) ≡ ok entry
  pub count_written :
      write_bytes entry (from_address (used_slot w.queue) 4) (to_le_bytes count) ≡ ok v.memory
  pub both_moved : v.queue ≡ record w.queue {
    last_avail_idx = (w.queue.last_avail_idx + 1) % 2 ^ 16;
    last_used_idx = (w.queue.last_used_idx + 1) % 2 ^ 16;
  }

-- A number of requests one after the other.
pub data Answers : ℕ → Work → Work → Type 0 where
  nothing : (w : Work) → Answers 0 w w
  another : (n : ℕ) (w v u : Work) → Answered w v → Answers n v u → Answers (suc n) w u

-- An iteration answers one request, or fails with the queue as it was.
unfoldable Serves : Work → Outcome Unit → Type 0
Serves w (v, ok done) = Answered w v
Serves w (v, err e) = (v.queue ≡ w.queue) × IsOfSource e

-- The steps with what they say of memory.
unfoldable Read : ℕ → Work → Outcome (List ℕ) → Type 0
Read addr w (v, ok bytes) = (v ≡ w) × (read_bytes w.memory addr 2 ≡ ok bytes)
Read addr w (v, err e) = (v.queue ≡ w.queue) × IsOfSource e

unfoldable Wrote : ℕ → List ℕ → Work → Outcome Unit → Type 0
Wrote addr bytes w (v, ok done) =
    (write_bytes w.memory addr bytes ≡ ok v.memory) × (v.queue ≡ w.queue)
Wrote addr bytes w (v, err e) = (v.queue ≡ w.queue) × IsOfSource e

after :
    {A B : Type 0} (Q : Outcome A → Type 0) (P : Outcome B → Type 0) (o : Outcome A)
    (next : A → Work → Outcome B)
    → Q o
    → ((v : Work) (e : RngError) → Q (v, err e) → P (v, err e))
    → ((a : A) (v : Work) → Q (v, ok a) → P (next a v))
    → P (and_then o next)
unfolding and_then
after Q P (w, ok a) next q h g = g a w q
after Q P (w, err e) next q h g = h w e q

ends-Read :
    (addr : ℕ) (w : Work) (r : Result {0, 0} (List ℕ) MemoryError)
    → read_bytes w.memory addr 2 ≡ r
    → Read addr w (elim r [ ok bytes ↦ (w, ok bytes) | err e ↦ (w, err (RngError.memory_error e)) ])
unfolding Read IsOfSource
ends-Read addr w (ok bytes) e = (refl, e)
ends-Read addr w (err error) e = (refl, tt)

read_from-Read : (addr : ℕ) (w : Work) → Read addr w (read_from addr 2 w)
unfolding read_from
read_from-Read addr w = ends-Read addr w (read_bytes w.memory addr 2) refl

ends-Wrote :
    (addr : ℕ) (bytes : List ℕ) (w : Work) (r : Result {0, 0} GuestMemory MemoryError)
    → write_bytes w.memory addr bytes ≡ r
    → Wrote addr bytes w (elim r [
      | ok m ↦ (record w { memory = m }, ok tt)
      | err e ↦ (w, err (RngError.memory_error e))
    ])
unfolding Wrote IsOfSource
ends-Wrote addr bytes w (ok m) e = (e, refl)
ends-Wrote addr bytes w (err error) e = (refl, tt)

write_to-Wrote : (addr : ℕ) (bytes : List ℕ) (w : Work) → Wrote addr bytes w (write_to addr bytes w)
unfolding write_to
write_to-Wrote addr bytes w = ends-Wrote addr bytes w (write_bytes w.memory addr bytes) refl

-- The outcome of a chain, and that it keeps the queue.
abbrev Chained : ℕ → Work → Outcome ℕ → Type 0
Chained head_idx w o = (fill_chain head_idx w ≡ o) × Keeps w.queue o

serve-Serves : (w : Work) → Serves w (serve w)
unfolding Serves serve advance Read Wrote Keeps
serve-Serves w =
    let q = w.queue in
    let slot = q.last_avail_idx % q.size in
    let used = used_slot q in
    let ring = from_address q.avail_ring_addr (4 + slot * 2) in
    let last = λ (written : ℕ) (t : Work).
      and_then (write_to (from_address used 4) (to_le_bytes written) t)
        (λ more s. (advance s, ok tt)) in
    let entry = λ (head_idx written : ℕ) (u : Work).
      and_then (write_to used (to_le_bytes head_idx) u) (λ done t. last written t) in
    let chain = λ (head_idx : ℕ) (v : Work).
      and_then (fill_chain head_idx v) (λ written u. entry head_idx written u) in
    after (Read ring w) (Serves w) (read_from ring 2 w) (λ bytes v. chain (from_le_bytes bytes) v)
      (read_from-Read ring w) (λ v e h. h)
      (λ bytes v (same, slot_read).
        let head_idx = from_le_bytes bytes in
        subst (λ (x : Work). Serves w (chain head_idx x)) (sym same)
          (after (Chained head_idx w) (Serves w) (fill_chain head_idx w) (entry head_idx)
            (refl, chain-Keeps head_idx w) (λ u e h. h.1)
            (λ written u (filled, kept).
              after (Wrote used (to_le_bytes head_idx) u) (Serves w)
                (write_to used (to_le_bytes head_idx) u) (λ done t. last written t)
                (write_to-Wrote used (to_le_bytes head_idx) u) (λ t e h. (h.0 ∙ kept, h.1))
                (λ done t (head_written, at_head).
                  after (Wrote (from_address used 4) (to_le_bytes written) t) (Serves w)
                    (write_to (from_address used 4) (to_le_bytes written) t)
                    (λ more s. (advance s, ok tt))
                    (write_to-Wrote (from_address used 4) (to_le_bytes written) t)
                    (λ s e h. (h.0 ∙ at_head ∙ kept, h.1))
                    (λ more s (count_written, at_count). record {
                      bytes = bytes;
                      filled = u;
                      count = written;
                      entry = t.memory;
                      slot_read = slot_read;
                      chain_filled = filled;
                      head_written = head_written;
                      count_written = count_written;
                      both_moved =
                          ap
                            (λ (p : VirtQueue). record p {
                              last_avail_idx = (p.last_avail_idx + 1) % 2 ^ 16;
                              last_used_idx = (p.last_used_idx + 1) % 2 ^ 16;
                            })
                            (at_count ∙ at_head ∙ kept);
                    })))))

-- The ends of a processing. If all requests up to the available index are taken, each was answered, and the
-- used index is written if there was one or `begun` says so. An error is one of the source, and leaves the
-- indices behind the requests that were answered.
unfoldable pub Processed : ℕ → Bool → Work → Outcome Bool → Type 0
Processed avail_idx begun w (end, ok true) =
    (n : ℕ) × (v : Work) × Answers n w v
    × (v.queue.last_avail_idx ≡ avail_idx)
    × (write_bytes v.memory (from_address v.queue.used_ring_addr 2)
          (take 2 (to_le_bytes v.queue.last_used_idx))
        ≡ ok end.memory)
    × (end.queue ≡ v.queue)
Processed avail_idx begun w (end, ok false) =
    (begun ≡ false) × (end ≡ w) × (w.queue.last_avail_idx ≡ avail_idx)
Processed avail_idx begun w (end, err e) =
    IsOfSource e × (n : ℕ) × (v : Work) × Answers n w v × (end.queue ≡ v.queue)

finish-Processed :
    (avail_idx : ℕ) (processed : Bool) (w : Work)
    → w.queue.last_avail_idx ≡ avail_idx
    → Processed avail_idx processed w (finish processed w)
unfolding Processed finish Wrote
finish-Processed avail_idx false w e = (refl, refl, e)
finish-Processed avail_idx true w e =
    let addr = from_address w.queue.used_ring_addr 2 in
    let bytes = take 2 (to_le_bytes w.queue.last_used_idx) in
    after (Wrote addr bytes w) (Processed avail_idx true w) (write_to addr bytes w)
      (λ done v. (v, ok true)) (write_to-Wrote addr bytes w)
      (λ v error h. (h.1, 0, w, Answers.nothing w, h.0))
      (λ done v h. (0, w, Answers.nothing w, e, h.0, h.1))

-- One request more.
later-Processed :
    (avail_idx : ℕ) (begun : Bool) (w v : Work) (o : Outcome Bool)
    → Answered w v
    → Processed avail_idx true v o
    → Processed avail_idx begun w o
unfolding Processed
later-Processed avail_idx begun w v (end, ok true) a (n, u, rest, done, written, same) =
    (suc n, u, Answers.another n w v u a rest, done, written, same)
later-Processed avail_idx begun w v (end, ok false) a (never, same, at) =
    absurd (ground (arith, never))
later-Processed avail_idx begun w v (end, err e) a (s, n, u, rest, same) =
    (s, suc n, u, Answers.another n w v u a rest, same)

after_serve :
    (avail_idx : ℕ) (begun : Bool) (w : Work) (o : Outcome Unit) (next : Work → Outcome Bool)
    → Serves w o
    → ((v : Work) → Answered w v → Processed avail_idx true v (next v))
    → Processed avail_idx begun w (and_then o (λ done v. next v))
unfolding Serves and_then Processed
after_serve avail_idx begun w (v, ok done) next s h =
    later-Processed avail_idx begun w v (next v) s (h v s)
after_serve avail_idx begun w (v, err e) next (same, s) h = (s, 0, w, Answers.nothing w, same)

process_from-Processed :
    (fuel avail_idx : ℕ) (processed : Bool) (w : Work)
    → avail_idx < 65536
    → w.queue.last_avail_idx < 65536
    → (avail_idx + 65536 - w.queue.last_avail_idx) % 65536 ≤ fuel
    → Processed avail_idx processed w (process_from fuel avail_idx processed w)
unfolding process_from
process_from-Processed zero avail_idx processed w small last enough =
    if_cases (Processed avail_idx processed w) (w.queue.last_avail_idx == avail_idx)
      (λ here. finish-Processed avail_idx processed w (ground (arith, here)))
      (λ other. absurd (ground (arith, other, small, last, enough)))
process_from-Processed (suc fuel) avail_idx processed w small last enough =
    if_cases (Processed avail_idx processed w) (w.queue.last_avail_idx == avail_idx)
      (λ here. finish-Processed avail_idx processed w (ground (arith, here)))
      (λ other.
        after_serve avail_idx processed w (serve w) (λ v. process_from fuel avail_idx true v)
          (serve-Serves w)
          (λ v a.
            let moved : v.queue.last_avail_idx ≡ (w.queue.last_avail_idx + 1) % 2 ^ 16 =
              ap (λ (p : VirtQueue). p.last_avail_idx) a.both_moved in
            process_from-Processed fuel avail_idx true v small (omega (arith, moved))
              (ground (arith, other, moved, small, last, enough))))

read_from-ok :
    (addr : ℕ) (w : Work) (bytes : List ℕ)
    → read_bytes w.memory addr 2 ≡ ok bytes
    → read_from addr 2 w ≡ (w, ok bytes)
unfolding read_from
read_from-ok addr w bytes read = rw (read_from, read) refl

-- A queue that is ready and not empty, whose next index has 16 bits and whose available index can be read:
-- processing ends. If it ends well, every request up to the available index was taken, its chain filled, and
-- its entry with the head and the number of bytes written to the next slot of the used ring; at the end the
-- used index is written. If it ends in an error, this holds of the requests before it.
pub process_queue-Processed :
    (w : Work) (bytes : List ℕ)
    → w.queue.ready ≡ true
    → 1 ≤ w.queue.size
    → w.queue.last_avail_idx < 65536
    → read_bytes w.memory (from_address w.queue.avail_ring_addr 2) 2 ≡ ok bytes
    → Processed (from_le_bytes bytes % 2 ^ 16) false w (process_queue w)
unfolding process_queue and_then
process_queue-Processed w bytes ready some_size last read =
    let ring = from_address w.queue.avail_ring_addr 2 in
    if_cases (Processed (from_le_bytes bytes % 2 ^ 16) false w)
      (not w.queue.ready || w.queue.size == 0)
      (λ idle. absurd (ground (arith, idle, ready, some_size)))
      (λ busy.
        (rw (read_from-ok ring w bytes read) (
          process_from-Processed 65536 (from_le_bytes bytes % 2 ^ 16) false w (omega arith) last
            (omega arith))))
