-- ===== src/Vsock/Queues.antt =====
-- The processing of the two queues of `VsockDevice` in vsock.rs, and what the transport calls of it. Both
-- queues are gone through by a loop over a 16-bit index, which goes round once at most.
use visor.Prelude.{
  ℕ, zero, suc, ◌+◌, ◌-◌, ◌*◌, ◌%◌, ◌^◌, Bool, true, false, not, ◌||◌, List, [], ◌∷◌, Option, none,
  some, Result, ok, err, ◌>>=◌, length, ltb, leb, ◌==◌, if◌then◌else◌, take, min, bit_and, set,
  get_elem?, map,
}
use visor.Prelude.Maps
use visor.Prelude.Maps.{Map}
use visor.Memory.{GuestMemory}
use visor.Virtio.{VirtQueue, reset_queue}
use visor.Rng.{VirtqDesc, from_address}
use visor.Vsock.{VsockPacket, header_size, to_bytes, le_bytes}
use visor.Vsock.Connection.{VsockConnection, any_pending}
use visor.Vsock.Receiving.{Received, recv_pkt}
use visor.Vsock.Device.{
  QueueError, ConnMapKey, key_discrete, VsockDevice, add_connection, remove_connection, keys_where,
  read_desc, read_index, Written, write_at, then_write, write_used_entry, handle_tx_chain,
}

-- What the processing of a queue changes. The queue is a copy.
pub record Work : Type 0 where
  pub memory : GuestMemory
  pub queue : VirtQueue
  pub device : VsockDevice

-- Whether the loop goes on.
abbrev pub Outcome : Type 0
Outcome = Work × Result {0, 0} Bool QueueError

-- Both indices are moved on.
unfoldable pub advance : VirtQueue → VirtQueue
advance queue = record queue {
  last_avail_idx = (queue.last_avail_idx + 1) % 2 ^ 16;
  last_used_idx = (queue.last_used_idx + 1) % 2 ^ 16;
}

-- The end of an iteration that wrote to memory.
unfoldable pub answered : VsockDevice → VsockDevice → VirtQueue → Written → Outcome
answered failed d queue (m, err e) = (record { memory = m; queue = queue; device = failed }, err e)
answered failed d queue (m, ok done) =
    (record { memory = m; queue = advance queue; device = d }, ok true)

abbrev pub head_offset : VirtQueue → ℕ
head_offset queue = 4 + queue.last_avail_idx % queue.size * 2

-- `?`: nothing has been changed before the error.
unfoldable pub on_ok : {A : Type 0} → Work → Result {0, 0} A QueueError → (A → Outcome) → Outcome
on_ok w (err e) next = (w, err e)
on_ok w (ok a) next = next a

-- An iteration over the queue of the guest's packets.
unfoldable pub serve_tx : ℕ → Work → Outcome
serve_tx now w = on_ok w (read_index w.memory w.queue (head_offset w.queue)) (λ head_idx.
    let d = handle_tx_chain now w.memory w.queue head_idx w.device in
    answered d d w.queue (write_used_entry w.queue head_idx 0 w.memory))

abbrev pub Found : Type 0
Found = VsockDevice × Option (ConnMapKey × VsockPacket × List ℕ)

-- A connection that was asked is in the map again.
unfoldable pub asked : (VsockDevice → Found) → ConnMapKey → VsockDevice → Received → Found
asked again key d (conn, ok (pkt, payload)) = (add_connection key conn d, some (key, pkt, payload))
asked again key d (conn, err e) = again (add_connection key conn d)

unfoldable pub ask :
    ℕ → ℕ → (VsockDevice → Found) → ConnMapKey → VsockDevice → Option VsockConnection → Found
ask now max_data_len again key d none = again d
ask now max_data_len again key d (some conn) = asked again key d (recv_pkt now max_data_len conn)

-- The first of the connections that has a packet for the guest; those before are asked in vain.
unfoldable pub first_packet : ℕ → ℕ → List ConnMapKey → VsockDevice → Found
first_packet now max_data_len [] d = (d, none)
first_packet now max_data_len (key ∷ keys) d =
    ask now max_data_len (first_packet now max_data_len keys) key d
      (Maps.get key_discrete key d.connections)

-- The room for a payload, and its address.
unfoldable pub rx_room :
    GuestMemory → VirtQueue → VirtqDesc → Result {0, 0} (Option ℕ × ℕ) QueueError
rx_room m queue header_desc =
    let inline_capacity = header_desc.len - header_size in
    if bit_and header_desc.flags 1 == 0
    then (if ltb 0 inline_capacity
        then ok (some (from_address header_desc.addr header_size), inline_capacity)
        else ok (none, inline_capacity))
    else read_desc m queue header_desc.next >>= λ data_desc. ok (some data_desc.addr, data_desc.len)

unfoldable pub write_payload : Option ℕ → List ℕ → ℕ → GuestMemory → Written
write_payload none payload write_len m = (m, ok tt)
write_payload (some addr) payload write_len m =
    if length payload == 0 then (m, ok tt) else write_at addr (take write_len payload) m

unfoldable pub write_packet :
    VirtQueue → ℕ → VirtqDesc → Option ℕ → ℕ → VsockPacket → List ℕ → GuestMemory → Written
write_packet queue head_idx header_desc payload_addr max_data_len pkt payload m =
    let write_len = min (length payload) max_data_len in
    let total_written = min (header_size + min write_len (2 ^ 32 - 1)) (2 ^ 32 - 1) in
    let header =
      if leb header_size header_desc.len
      then write_at header_desc.addr (to_bytes pkt) m
      else (m, ok tt) in
    then_write header (λ m'.
      then_write (write_payload payload_addr payload write_len m')
        (λ m''. write_used_entry queue head_idx total_written m''))

-- A connection that was reset is removed.
unfoldable pub after_packet : ConnMapKey → VsockPacket → VsockDevice → VsockDevice
after_packet key pkt d = if pkt.op == 3 then remove_connection key d else d

unfoldable pub fill_rx : ℕ → VirtqDesc → Option ℕ × ℕ → Work → Found → Outcome
fill_rx head_idx header_desc (payload_addr, max_data_len) w (d, none) =
    (record w { device = d }, ok false)
fill_rx head_idx header_desc (payload_addr, max_data_len) w (d, some (key, pkt, payload)) =
    answered d (after_packet key pkt d) w.queue
      (write_packet w.queue head_idx header_desc payload_addr max_data_len pkt payload w.memory)

-- An iteration over the queue of the guest's buffers: it stops if no connection has a packet for the buffer.
unfoldable pub serve_rx : ℕ → Work → Outcome
serve_rx now w =
    let pending_keys = keys_where (λ conn. any_pending conn.pending_rx) w.device.connections in
    if length pending_keys == 0
    then (w, ok false)
    else on_ok w (read_index w.memory w.queue (head_offset w.queue)) (λ head_idx.
      on_ok w (read_desc w.memory w.queue head_idx) (λ header_desc.
        on_ok w (rx_room w.memory w.queue header_desc) (λ room.
          fill_rx head_idx header_desc room w (first_packet now room.1 pending_keys w.device))))

unfoldable pub with_memory : Work → Written → Outcome
with_memory w (m, ok done) = (record w { memory = m }, ok true)
with_memory w (m, err e) = (record w { memory = m }, err e)

unfoldable pub finish : Bool → Work → Outcome
finish false w = (w, ok false)
finish true w =
    with_memory w
      (write_at (from_address w.queue.used_ring_addr 2) (le_bytes 2 w.queue.last_used_idx) w.memory)

-- What follows an iteration. `none` says that the fuel was not enough.
unfoldable pub next_round : (Work → Option Outcome) → Bool → Outcome → Option Outcome
next_round again processed (w, err e) = some (w, err e)
next_round again processed (w, ok false) = some (finish processed w)
next_round again processed (w, ok true) = again w

unfoldable pub process_from : (Work → Outcome) → ℕ → ℕ → Bool → Work → Option Outcome
process_from serve zero avail_idx processed w =
    if w.queue.last_avail_idx == avail_idx then some (finish processed w) else none
process_from serve (suc fuel) avail_idx processed w =
    let rest = next_round (process_from serve fuel avail_idx true) processed (serve w) in
    if w.queue.last_avail_idx == avail_idx then some (finish processed w) else rest

unfoldable pub process_to : (Work → Outcome) → Work → Result {0, 0} ℕ QueueError → Option Outcome
process_to serve w (err e) = some (w, err e)
process_to serve w (ok avail_idx) = process_from serve 65536 avail_idx false w

unfoldable pub process_inner : (Work → Outcome) → Work → Option Outcome
process_inner serve w =
    if not w.queue.ready || w.queue.size == 0
    then some (w, ok false)
    else process_to serve w (read_index w.memory w.queue 2)

abbrev pub rxq : ℕ
rxq = 0

abbrev pub txq : ℕ
txq = 1

abbrev pub or_false : Result {0, 0} Bool QueueError → Bool
or_false (ok processed) = processed
or_false (err e) = false

abbrev pub Processed : Type 0
Processed = Option (VsockDevice × GuestMemory × Bool)

-- The indices of the copy are written back, whatever the processing ended in.
unfoldable pub put_back : ℕ → VirtQueue → Option Outcome → Processed
put_back queue_idx q none = none
put_back queue_idx q (some (w, r)) =
    let moved = record q {
      last_avail_idx = w.queue.last_avail_idx;
      last_used_idx = w.queue.last_used_idx;
    } in
    some (record w.device { queues = set w.device.queues queue_idx moved }, w.memory, or_false r)

-- The device has the queues that it is asked for.
unfoldable pub process_at :
    (Work → Outcome) → ℕ → GuestMemory → VsockDevice → Option VirtQueue → Processed
process_at serve queue_idx m d none = some (d, m, false)
process_at serve queue_idx m d (some q) =
    put_back queue_idx q (process_inner serve (record { memory = m; queue = q; device = d }))

unfoldable pub process_rx : ℕ → GuestMemory → VsockDevice → Processed
process_rx now m d = process_at (serve_rx now) rxq m d (get_elem? d.queues rxq)

unfoldable pub either_ok : Bool → Processed → Processed
either_ok tx_ok none = none
either_ok tx_ok (some (d, m, rx_ok)) = some (d, m, tx_ok || rx_ok)

-- The packets of the guest may have made others for it.
unfoldable pub then_rx : ℕ → Processed → Processed
then_rx now none = none
then_rx now (some (d, m, tx_ok)) = either_ok tx_ok (process_rx now m d)

-- `VirtioDevice::process_queue` at a time, with guest memory afterwards.
unfoldable pub process_queue : ℕ → ℕ → GuestMemory → VsockDevice → Processed
process_queue now queue_idx m d =
    if queue_idx == txq
    then then_rx now (process_at (serve_tx now) txq m d (get_elem? d.queues txq))
    else (if queue_idx == rxq then process_rx now m d else some (d, m, false))

-- The bytes of the guest's context id, and zeros behind them.
unfoldable pub read_config : VsockDevice → ℕ → List ℕ → List ℕ
read_config d offset [] = []
read_config d offset (byte ∷ bytes) =
    let rest = read_config d (offset + 1) bytes in
    elim (get_elem? (le_bytes 8 d.guest_cid) offset) [ none ↦ 0 ∷ rest | some val ↦ val ∷ rest ]

unfoldable pub set_acked_features : ℕ → VsockDevice → VsockDevice
set_acked_features features d = record d { acked_features = features }

unfoldable pub activate : VsockDevice → VsockDevice
activate d = record d { activated = true }

unfoldable pub reset : VsockDevice → VsockDevice
reset d =
    let idle = record d { activated = false; queues = map reset_queue d.queues } in
    if d.activated then record idle { connections = [] } else idle
