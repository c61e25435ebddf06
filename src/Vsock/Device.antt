-- ===== src/Vsock/Device.antt =====
-- `VsockDevice` of vsock.rs: its connections by their ports, and the packets of its two queues. The iteration
-- over the hash map goes through the list of its entries. Sums of guest addresses wrap at 2 ^ 64.
use native.Mathlib.Decide.{ℕ_discrete}
use visor.Prelude.{
  ℕ, ◌+◌, ◌*◌, ◌%◌, ◌^◌, Bool, false, List, [], ◌∷◌, Option, none, some, Result, ok, err, ◌>>=◌,
  ltb, leb, ◌==◌, if◌then◌else◌, take, drop, min, bit_and,
}
use visor.Prelude.Bytes.{to_le_bytes, from_le_bytes}
use visor.Prelude.Maps
use visor.Prelude.Maps.{Map}
use visor.Memory.{GuestMemory, MemoryError, read_bytes, write_bytes}
use visor.Virtio.{VirtQueue, new_queue}
use visor.Rng.{VirtqDesc, from_address}
use visor.Vsock.{VsockOp, from_u16, VsockPacket, header_size, from_bytes}
use visor.Vsock.Connection.{VsockConnection, has_expired, new_peer_init}
use visor.Vsock.Sending.{send_pkt}

-- The errors of `VsockError` that come from the queues.
pub data QueueError : Type 0 where
  memory : MemoryError → QueueError
  -- The index, and the size of the queue.
  invalid_descriptor : ℕ → ℕ → QueueError

-- `ConnMapKey`: the local port and the port of the peer.
abbrev pub ConnMapKey : Type 0
ConnMapKey = ℕ × ℕ

pub key_discrete : Discrete ConnMapKey
key_discrete = hlevel ℕ_discrete

abbrev pub host_cid : ℕ
host_cid = 2

pub record VsockDevice : Type 0 where
  pub guest_cid : ℕ
  pub avail_features : ℕ
  pub acked_features : ℕ
  pub queues : List VirtQueue
  pub activated : Bool
  pub connections : Map ConnMapKey VsockConnection

unfoldable pub new : ℕ → VsockDevice
new guest_cid = record {
  guest_cid = guest_cid;
  avail_features = 4294967296;
  acked_features = 0;
  queues = new_queue 256 ∷ new_queue 256 ∷ new_queue 256 ∷ [];
  activated = false;
  connections = [];
}

unfoldable pub add_connection : ConnMapKey → VsockConnection → VsockDevice → VsockDevice
add_connection key conn d = record d {
  connections = Maps.insert key_discrete key conn d.connections;
}

unfoldable pub remove_connection : ConnMapKey → VsockDevice → VsockDevice
remove_connection key d = record d { connections = Maps.remove key_discrete key d.connections }

unfoldable pub keys_where :
    (VsockConnection → Bool) → Map ConnMapKey VsockConnection → List ConnMapKey
keys_where test [] = []
keys_where test ((key, conn) ∷ m) =
    let rest = keys_where test m in if test conn then key ∷ rest else rest

unfoldable pub remove_all : List ConnMapKey → VsockDevice → VsockDevice
remove_all [] d = d
remove_all (key ∷ keys) d = remove_all keys (remove_connection key d)

unfoldable pub expire_connections : ℕ → VsockDevice → VsockDevice
expire_connections now d = remove_all (keys_where (has_expired now) d.connections) d

abbrev pub memory_result : {A : Type 0} → Result {0, 0} A MemoryError → Result {0, 0} A QueueError
memory_result (ok a) = ok a
memory_result (err e) = err (QueueError.memory e)

unfoldable pub read_desc : GuestMemory → VirtQueue → ℕ → Result {0, 0} VirtqDesc QueueError
read_desc m queue idx =
    if leb queue.size idx
    then err (QueueError.invalid_descriptor idx queue.size)
    else memory_result (read_bytes m (from_address queue.desc_table_addr (idx * 16)) 16)
      >>= λ bytes. ok (record {
        addr = from_le_bytes (take 8 bytes);
        len = from_le_bytes (take 4 (drop 8 bytes));
        flags = from_le_bytes (take 2 (drop 12 bytes));
        next = from_le_bytes (drop 14 bytes);
      })

-- Two bytes of the available ring.
unfoldable pub read_index : GuestMemory → VirtQueue → ℕ → Result {0, 0} ℕ QueueError
read_index m queue offset =
    memory_result (read_bytes m (from_address queue.avail_ring_addr offset) 2) >>= λ bytes.
    ok (from_le_bytes bytes % 2 ^ 16)

-- A write, behind which another follows; memory keeps what was written before an error.
abbrev pub Written : Type 0
Written = GuestMemory × Result {0, 0} Unit QueueError

unfoldable pub write_at : ℕ → List ℕ → GuestMemory → Written
write_at addr bytes m = elim (write_bytes m addr bytes) [
  | ok m' ↦ (m', ok tt)
  | err e ↦ (m, err (QueueError.memory e))
]

unfoldable pub then_write : Written → (GuestMemory → Written) → Written
then_write (m, ok done) next = next m
then_write (m, err e) next = (m, err e)

unfoldable pub write_used_entry : VirtQueue → ℕ → ℕ → GuestMemory → Written
write_used_entry queue head_idx written m =
    let used = from_address queue.used_ring_addr (4 + queue.last_used_idx % queue.size * 8) in
    then_write (write_at used (to_le_bytes head_idx) m)
      (λ m'. write_at (from_address used 4) (to_le_bytes written) m')

-- The packet of a chain; none if its header is too short.
unfoldable pub read_packet :
    GuestMemory → VirtQueue → ℕ → Result {0, 0} (Option (VsockPacket × List ℕ)) QueueError
read_packet m queue head_idx = read_desc m queue head_idx >>= λ header_desc.
    if ltb header_desc.len header_size
    then ok none
    else memory_result (read_bytes m header_desc.addr header_size) >>= λ hdr_bytes.
        elim (from_bytes hdr_bytes) [
          | none ↦ ok none
          | some pkt ↦
              if bit_and header_desc.flags 1 == 0
              then ok (some (pkt, []))
              else read_desc m queue header_desc.next >>= λ data_desc.
                  let len = min data_desc.len pkt.len in
                  if len == 0
                  then ok (some (pkt, []))
                  else memory_result (read_bytes m data_desc.addr len) >>= λ payload.
                      ok (some (pkt, payload))
        ]

-- A request makes a connection if there is none.
unfoldable pub accept :
    ConnMapKey → VsockConnection → VsockDevice → Option VsockConnection → VsockDevice
accept key fresh d none = add_connection key fresh d
accept key fresh d (some conn) = d

-- Other packets go to their connection, whose errors are ignored.
unfoldable pub forward :
    ℕ → VsockPacket → List ℕ → ConnMapKey → VsockDevice → Option VsockConnection → VsockDevice
forward now pkt payload key d none = d
forward now pkt payload key d (some conn) = add_connection key (send_pkt now pkt payload conn).0 d

unfoldable pub by_op : VsockDevice → VsockDevice → VsockDevice → Option VsockOp → VsockDevice
by_op requested was_reset other (some VsockOp.request) = requested
by_op requested was_reset other (some VsockOp.rst) = was_reset
by_op requested was_reset other _ = other

-- What a packet from the guest does to the connections.
unfoldable pub dispatch : ℕ → VsockPacket → List ℕ → VsockDevice → VsockDevice
dispatch now pkt payload d =
    let key : ConnMapKey = (pkt.dst_port, pkt.src_port) in
    let found = Maps.get key_discrete key d.connections in
    let fresh = new_peer_init host_cid d.guest_cid pkt.dst_port pkt.src_port pkt.buf_alloc in
    by_op (accept key fresh d found) (remove_connection key d) (forward now pkt payload key d found)
      (from_u16 pkt.op)

unfoldable pub handle_packet :
    ℕ → VsockDevice → Result {0, 0} (Option (VsockPacket × List ℕ)) QueueError → VsockDevice
handle_packet now d (ok (some (pkt, payload))) = dispatch now pkt payload d
handle_packet now d _ = d

-- The error is ignored by the caller.
unfoldable pub handle_tx_chain : ℕ → GuestMemory → VirtQueue → ℕ → VsockDevice → VsockDevice
handle_tx_chain now m queue head_idx d = handle_packet now d (read_packet m queue head_idx)
