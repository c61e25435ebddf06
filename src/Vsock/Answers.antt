-- ===== src/Vsock/Answers.antt =====
-- The packets of the guest in vsock.rs: what it is to answer a chain, and how processing ends.
use visor.Prelude.{ℕ, suc, ◌+◌, ◌*◌, ◌%◌, ◌≡◌, Bool, true, false, List, Option, none, some, ok, err}
use visor.Prelude.Bytes.{to_le_bytes}
use visor.Memory.{GuestMemory, write_bytes}
use visor.Virtio.{VirtQueue}
use visor.Rng.{from_address}
use visor.Vsock.{le_bytes}
use visor.Vsock.Device.{read_index, Written, handle_tx_chain}
use visor.Vsock.Queues.{Work, Outcome, advance, head_offset}

-- The slot of the used ring that is written next.
abbrev pub used_slot : VirtQueue → ℕ
used_slot q = from_address q.used_ring_addr (4 + q.last_used_idx % q.size * 8)

-- What writes an entry: the head, and that no bytes were written to the chain.
pub record Entry (q : VirtQueue) (head_idx : ℕ) (m after : GuestMemory) : Type 0 where
  pub between : GuestMemory
  pub head_written : write_bytes m (used_slot q) (to_le_bytes head_idx) ≡ ok between
  pub count_written : write_bytes between (from_address (used_slot q) 4) (to_le_bytes 0) ≡ ok after

-- One chain between two states: the one at the next slot of the available ring was dispatched as memory was
-- before, and its entry is written to the next slot of the used ring.
pub record Answered (now : ℕ) (w v : Work) : Type 0 where
  pub head_idx : ℕ
  pub slot_read : read_index w.memory w.queue (head_offset w.queue) ≡ ok head_idx
  pub dispatched : v.device ≡ handle_tx_chain now w.memory w.queue head_idx w.device
  pub entry_written : Entry w.queue head_idx w.memory v.memory
  pub both_moved : v.queue ≡ advance w.queue

-- A number of chains one after the other.
pub data Answers (now : ℕ) : ℕ → Work → Work → Type 0 where
  nothing : (w : Work) → Answers now 0 w w
  another : (n : ℕ) (w v u : Work) → Answered now w v → Answers now n v u → Answers now (suc n) w u

unfoldable WroteAt : ℕ → List ℕ → GuestMemory → Written → Type 0
WroteAt addr bytes m (m', ok done) = write_bytes m addr bytes ≡ ok m'
WroteAt addr bytes m (m', err e) = Unit

abbrev IfEntry : VirtQueue → ℕ → GuestMemory → Written → Type 0
IfEntry q head_idx m (m', ok done) = Entry q head_idx m m'
IfEntry q head_idx m (m', err e) = Unit

-- An iteration answers one chain, or fails with the queue as it was.
unfoldable Serves : ℕ → Work → Outcome → Type 0
Serves now w (v, ok true) = Answered now w v
Serves now w (v, ok false) = ⊥
Serves now w (v, err e) = v.queue ≡ w.queue

-- The ends of a processing. If all chains up to the available index are taken, each was answered, and the used
-- index is written if there was one or `begun` says so. An error leaves the indices behind the chains that
-- were answered.
unfoldable pub Processed : ℕ → ℕ → Bool → Work → Option Outcome → Type 0
Processed now avail_idx begun w none = ⊥
Processed now avail_idx begun w (some (end, ok true)) =
    (n : ℕ) × (v : Work) × Answers now n w v
    × (v.queue.last_avail_idx ≡ avail_idx)
    × (write_bytes v.memory (from_address v.queue.used_ring_addr 2)
          (le_bytes 2 v.queue.last_used_idx)
        ≡ ok end.memory)
    × (end.queue ≡ v.queue)
    × (end.device ≡ v.device)
Processed now avail_idx begun w (some (end, ok false)) =
    (begun ≡ false) × (end ≡ w) × (w.queue.last_avail_idx ≡ avail_idx)
Processed now avail_idx begun w (some (end, err e)) =
    (n : ℕ) × (v : Work) × Answers now n w v × (end.queue ≡ v.queue)
