-- ===== src/Vsock/Whole.antt =====
-- `VsockDevice` of vsock.rs over histories of calls: of the transport, with whatever the guest put into its
-- memory, and of the muxer.
use visor.Prelude.{ℕ, List, [], ◌∷◌, Option, none, some}
use visor.Prelude.Maps
use visor.Memory.{GuestMemory}
use visor.Virtio.{VirtQueue}
use visor.Vsock.Connection.{VsockConnection, new_local_init, push_host_data, notify_host_closed}
use visor.Vsock.Device
use visor.Vsock.Device.{
  QueueError, ConnMapKey, key_discrete, VsockDevice, add_connection, remove_connection, host_cid,
  expire_connections, handle_tx_chain, read_desc, read_index, Written, write_at, write_used_entry,
}
use visor.Vsock.Queues.{set_acked_features, activate, Processed, process_queue, reset}
use visor.Vsock.Serving.{IsDevice}
use visor.Vsock.TxBuf.{Sink}
use visor.Vsock.Connection.{kill, flush_tx_buf}
use visor.Vsock.Stream.{flushed_or}
use visor.Prelude.{get_elem?, set, length, ok, ◌++◌, Bool}

-- The calls of the transport, with guest memory as the guest left it, and of the muxer.
pub data DeviceCall : Type 0 where
  processes : (now queue_idx : ℕ) (memory : GuestMemory) → DeviceCall
  acknowledges : (features : ℕ) → DeviceCall
  activates : DeviceCall
  resets : DeviceCall
  -- The driver sets a queue up.
  configures :
      (queue_idx size : ℕ) (ready : Bool) (desc_table_addr avail_ring_addr used_ring_addr : ℕ)
      → DeviceCall
  connects : (local_port peer_port : ℕ) → DeviceCall
  brings : (key : ConnMapKey) (bytes : List ℕ) → DeviceCall
  closes : (key : ConnMapKey) → DeviceCall
  -- The bytes from the guest are taken into a vector.
  flushes : (key : ConnMapKey) → DeviceCall
  kills : (key : ConnMapKey) → DeviceCall
  removes : (key : ConnMapKey) → DeviceCall
  expires : (now : ℕ) → DeviceCall

-- `get_mut` with what is done to the connection.
unfoldable pub at_connection :
    (VsockConnection → VsockConnection)
    → ConnMapKey
    → VsockDevice
    → Option VsockConnection
    → VsockDevice
at_connection f key d none = d
at_connection f key d (some c) = add_connection key (f c) d

-- `Write` of a vector takes all.
abbrev pub vec_sink : Sink (List ℕ)
vec_sink = record { write = λ bytes buf. (ok (length bytes), buf ++ bytes) }

unfoldable pub flush_to_vec : VsockConnection → VsockConnection
flush_to_vec c = (flushed_or c [] (flush_tx_buf vec_sink c [])).0

-- What the transport writes through `queues_mut`.
unfoldable pub configure : ℕ → ℕ → Bool → ℕ → ℕ → ℕ → VsockDevice → Option VirtQueue → VsockDevice
configure queue_idx size ready desc avail used d none = d
configure queue_idx size ready desc avail used d (some q) =
    let configured = record q {
      size = size;
      ready = ready;
      desc_table_addr = desc;
      avail_ring_addr = avail;
      used_ring_addr = used;
    } in
    record d { queues = set d.queues queue_idx configured }

unfoldable pub device_of : Processed → Option VsockDevice
device_of none = none
device_of (some (d, m, processed)) = some d

unfoldable pub device_call : DeviceCall → VsockDevice → Option VsockDevice
device_call (DeviceCall.processes now queue_idx memory) d =
    device_of (process_queue now queue_idx memory d)
device_call (DeviceCall.acknowledges features) d = some (set_acked_features features d)
device_call DeviceCall.activates d = some (activate d)
device_call DeviceCall.resets d = some (reset d)
device_call (DeviceCall.connects local_port peer_port) d = some (
    add_connection (local_port, peer_port)
      (new_local_init host_cid d.guest_cid local_port peer_port) d)
device_call (DeviceCall.brings key bytes) d =
    some (at_connection (push_host_data bytes) key d (Maps.get key_discrete key d.connections))
device_call (DeviceCall.closes key) d =
    some (at_connection notify_host_closed key d (Maps.get key_discrete key d.connections))
device_call (DeviceCall.configures queue_idx size ready desc avail used) d =
    some (configure queue_idx size ready desc avail used d (get_elem? d.queues queue_idx))
device_call (DeviceCall.flushes key) d =
    some (at_connection flush_to_vec key d (Maps.get key_discrete key d.connections))
device_call (DeviceCall.kills key) d =
    some (at_connection kill key d (Maps.get key_discrete key d.connections))
device_call (DeviceCall.removes key) d = some (remove_connection key d)
device_call (DeviceCall.expires now) d = some (expire_connections now d)

unfoldable pub all_calls : List DeviceCall → Option VsockDevice → Option VsockDevice
all_calls [] d = d
all_calls (call ∷ calls) none = none
all_calls (call ∷ calls) (some d) = all_calls calls (device_call call d)

abbrev pub EndsWell : Option VsockDevice → Type 0
EndsWell none = ⊥
EndsWell (some d) = IsDevice d
