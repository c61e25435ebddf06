-- ===== src/SharedRing/Queue.antt =====
-- The ring of net/shared_ring.rs is a queue of packets: what `try_send` adds at the back, `try_recv` takes
-- from the front.
pub mod Sending
pub mod Receiving
pub mod History
use visor.Prelude.{ℕ, ◌+◌, ◌%◌, ◌^◌, ◌≤◌, ◌<◌, ◌≡◌, List}
use visor.SharedRing.{Ring, min_capacity}
use visor.SharedRing.Content.{Content}

-- The ring holds these packets, the oldest first. Its capacity and its write index are aligned.
pub record Holds (ring : Ring) (packets : List (List ℕ)) : Type 0 where
  pub large : min_capacity ≤ ring.capacity
  pub aligned : ring.capacity % 8 ≡ 0
  pub write_aligned : ring.write_idx % ring.capacity % 8 ≡ 0
  pub word : ring.write_idx < 2 ^ 64
  pub room : ring.write_idx ≤ ring.read_idx + ring.capacity
  pub content : Content ring.capacity ring.bytes_at ring.read_idx ring.write_idx packets
