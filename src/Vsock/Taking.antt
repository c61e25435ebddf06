-- ===== src/Vsock/Taking.antt =====
-- What an iteration over a queue of vsock.rs does to its indices.
use visor.Prelude.{
  ℕ, ◌%◌, ◌^◌, ◌<◌, ◌≡◌, refl, true, false, List, Option, none, some, Result, ok, err, length, ◌==◌,
  if_both, arith, ◌>>=◌, subst,
}
use visor.Prelude.Bytes.{from_le_bytes}
use visor.Memory.{GuestMemory, MemoryError, read_bytes}
use visor.Virtio.{VirtQueue}
use visor.Rng.{VirtqDesc, from_address}
use visor.Vsock.Connection.{any_pending}
use visor.Vsock.Device.{
  QueueError, memory_result, VsockDevice, keys_where, read_desc, read_index, Written,
  handle_tx_chain, write_used_entry,
}
use visor.Vsock.Queues.{
  Work, Outcome, advance, answered, head_offset, on_ok, serve_tx, Found, first_packet, rx_room,
  fill_rx, serve_rx, after_packet, write_packet,
}

-- What an iteration does to the indices; `Stops` is what is known where it asks to stop.
unfoldable pub Serves : Type 0 → VirtQueue → Outcome → Type 0
Serves Stops q (w, ok true) = w.queue ≡ advance q
Serves Stops q (w, ok false) = (w.queue ≡ q) × Stops
Serves Stops q (w, err e) = w.queue ≡ q

on_ok-Serves :
    {A : Type 0} (Stops : Type 0) (w : Work) (r : Result {0, 0} A QueueError) (next : A → Outcome)
    → ((a : A) → Serves Stops w.queue (next a))
    → Serves Stops w.queue (on_ok w r next)
unfolding Serves on_ok
on_ok-Serves Stops w (ok a) next h = h a
on_ok-Serves Stops w (err e) next h = refl

answered-Serves :
    (Stops : Type 0) (failed d : VsockDevice) (q : VirtQueue) (r : Written)
    → Serves Stops q (answered failed d q r)
unfolding Serves answered
answered-Serves Stops failed d q (m, ok done) = refl
answered-Serves Stops failed d q (m, err e) = refl

pub serve_tx-Serves : (now : ℕ) (w : Work) → Serves ⊥ w.queue (serve_tx now w)
unfolding serve_tx
serve_tx-Serves now w =
    on_ok-Serves ⊥ w (read_index w.memory w.queue (head_offset w.queue))
      (λ head_idx.
        let d = handle_tx_chain now w.memory w.queue head_idx w.device in
        answered d d w.queue (write_used_entry w.queue head_idx 0 w.memory))
      (λ head_idx.
        let d = handle_tx_chain now w.memory w.queue head_idx w.device in
        answered-Serves ⊥ d d w.queue (write_used_entry w.queue head_idx 0 w.memory))

fill_rx-Serves :
    (head_idx : ℕ) (desc : VirtqDesc) (room : Option ℕ × ℕ) (w : Work) (found : Found)
    → Serves Unit w.queue (fill_rx head_idx desc room w found)
unfolding Serves fill_rx
fill_rx-Serves head_idx desc (addr, room) w (d, none) = (refl, tt)
fill_rx-Serves head_idx desc (addr, room) w (d, some (key, pkt, payload)) =
    answered-Serves Unit d (after_packet key pkt d) w.queue
      (write_packet w.queue head_idx desc addr room pkt payload w.memory)

pub serve_rx-Serves : (now : ℕ) (w : Work) → Serves Unit w.queue (serve_rx now w)
unfolding Serves serve_rx
serve_rx-Serves now w =
    let keys = keys_where (λ conn. any_pending conn.pending_rx) w.device.connections in
    let fill = λ (head_idx : ℕ) (desc : VirtqDesc) (room : Option ℕ × ℕ).
      fill_rx head_idx desc room w (first_packet now room.1 keys w.device) in
    let for_room = λ (head_idx : ℕ) (desc : VirtqDesc).
      on_ok w (rx_room w.memory w.queue desc) (fill head_idx desc) in
    if_both (Serves Unit w.queue) (length keys == 0) (refl, tt)
      (on_ok-Serves Unit w (read_index w.memory w.queue (head_offset w.queue))
        (λ head_idx. on_ok w (read_desc w.memory w.queue head_idx) (for_room head_idx))
        (λ head_idx.
          on_ok-Serves Unit w (read_desc w.memory w.queue head_idx) (for_room head_idx) (λ desc.
            on_ok-Serves Unit w (rx_room w.memory w.queue desc) (fill head_idx desc) (λ room.
              fill_rx-Serves head_idx desc room w (first_packet now room.1 keys w.device)))))

abbrev pub IsSmall : Result {0, 0} ℕ QueueError → Type 0
IsSmall (ok n) = n < 65536
IsSmall (err e) = Unit

read-IsSmall :
    (r : Result {0, 0} (List ℕ) MemoryError)
    → IsSmall (memory_result r >>= λ bytes. ok (from_le_bytes bytes % 2 ^ 16))
read-IsSmall (ok bytes) = omega arith
read-IsSmall (err e) = tt

pub read_index-IsSmall :
    (m : GuestMemory) (q : VirtQueue) (offset : ℕ) → IsSmall (read_index m q offset)
unfolding read_index
read_index-IsSmall m q offset =
    read-IsSmall (read_bytes m (from_address q.avail_ring_addr offset) 2)

pub index_small :
    (m : GuestMemory) (q : VirtQueue) (offset n : ℕ) → read_index m q offset ≡ ok n → n < 65536
index_small m q offset n e = subst IsSmall e (read_index-IsSmall m q offset)
