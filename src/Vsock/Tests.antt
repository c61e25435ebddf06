-- ===== src/Vsock/Tests.antt =====
-- Runs of vsock.rs.
use visor.Prelude.{
  ℕ, ◌+◌, ◌%◌, ◌^◌, ◌≤◌, ◌≡◌, refl, true, false, List, [], ◌∷◌, ◌++◌, none, some, ok, err, length,
  arith, take, drop, min,
}
use visor.Prelude.Bytes.{from_le_bytes}
use visor.Vsock.{VsockPacket, le_bytes}
use visor.Vsock.TxBuf
use visor.Vsock.TxBuf.{
  TxBuf, VsockError, Sink, conn_tx_buf_size, len, push, written, flush_written, flush_stored,
  flush_to, copy_wrapped, or_zeroed,
}
use visor.Vsock.Connection.{VsockConnection, new_peer_init, has_expired, will_expire}
use visor.Vsock.Receiving.{recv_pkt}
use visor.Memory.{read_bytes, checked_access, guest_to_host, guest_offset, checked_sub, inside}
use visor.Vsock.Device
use visor.Vsock.Device.{
  read_index, handle_tx_chain, read_packet, handle_packet, dispatch, by_op, accept, add_connection,
  write_used_entry, then_write, write_at, keys_where,
}
use visor.Prelude.Maps
use visor.Prelude.Bytes.{copy_at, to_le_bytes}
use visor.Virtio.{new_queue}
use visor.Vsock.{from_u16, from_bytes}
use visor.Memory.{GuestMemory, write_bytes}
use visor.Vsock.Queues.{on_ok, answered, advance, Work, read_config, serve_tx}
use visor.Vsock.Whole.{DeviceCall}
use visor.Vsock.Header.{Fits}
use visor.Vsock.Stream.{Call, step, run, handed, brought, payload_of, run-rx_buf}
use visor.Vsock.Credit.{InCredit}
use visor.Vsock.Guest.{Honest, HasRoom, calls-HasRoom}
use visor.Vsock.Lives.{Walks, new_peer_init-Answering, calls-Walks}
use visor.Vsock.Closing.{ready, share, recv_pkt-then_silent}
use visor.Vsock.Fifo.{content, IsTxBuf, new-IsTxBuf, Pushed, push-Pushed}
use visor.Vsock.Draining.{IsWriter, Flushed, flush_to-Flushed}
use visor.Vsock.Forward.{accepted, run-tx_buf, run-fwd_cnt}

-- A stream that takes two bytes at a time.
abbrev stream : Sink (List ℕ)
stream = record {
  write = λ bytes got. (ok (min 2 (length bytes)), got ++ take (min 2 (length bytes)) bytes);
}

abbrev all_got : List ℕ → List ℕ
all_got got = got

stream-IsWriter : IsWriter all_got stream
stream-IsWriter bytes got = (omega arith, refl)

abbrev data_pkt : VsockPacket
data_pkt = record {
  src_cid = 3;
  dst_cid = 2;
  src_port = 1024;
  dst_port = 52;
  len = 3;
  pkt_type = 1;
  op = 5;
  flags = 0;
  buf_alloc = 2;
  fwd_cnt = 0;
}

abbrev connection : VsockConnection
connection = new_peer_init 2 3 52 1024 4096

-- The guest is answered and sends three bytes; the host brings four, for two of which the guest has room.
abbrev history : List Call
history =
    Call.to_guest 0 100
    ∷ Call.from_guest 1 data_pkt (7 ∷ 8 ∷ 9 ∷ [])
    ∷ Call.flush
    ∷ Call.host_data (1 ∷ 2 ∷ 3 ∷ 4 ∷ [])
    ∷ Call.to_guest 2 100
    ∷ Call.host_closes
    ∷ []

brought_by_history : brought stream history ≡ 1 ∷ 2 ∷ 3 ∷ 4 ∷ []
unfolding brought
brought_by_history = refl

run-rx_buf_example :
    handed stream history (connection, []) ++ (run stream history (connection, [])).0.rx_buf
    ≡ connection.rx_buf ++ brought stream history
run-rx_buf_example = run-rx_buf stream history (connection, [])

connection-InCredit : InCredit connection
unfolding new_peer_init
connection-InCredit = record {
  rx_cnt_small = omega arith;
  peer_fwd_cnt_small = omega arith;
  peer_buf_alloc_small = omega arith;
  within = omega arith;
}

history-Honest : Honest stream history (connection, [])
unfolding Honest step new_peer_init recv_pkt
history-Honest = ((omega arith, (omega arith, omega arith)), tt)

calls-HasRoom_example : HasRoom stream history (connection, [])
calls-HasRoom_example =
    calls-HasRoom stream history (connection, []) history-Honest connection-InCredit

calls-Walks_example : Walks stream history (connection, [])
calls-Walks_example =
    calls-Walks stream history (connection, []) (new_peer_init-Answering 2 3 52 1024 4096)

connection-IsTxBuf : IsTxBuf connection.tx_buf
unfolding new_peer_init
connection-IsTxBuf = new-IsTxBuf

run-tx_buf_example :
    let end = run stream history (connection, []) in
    (end.1 ++ content end.0.tx_buf
      ≡ ([] ++ content connection.tx_buf)
        ++ accepted all_got stream stream-IsWriter history (connection, []))
    × IsTxBuf end.0.tx_buf
run-tx_buf_example =
    run-tx_buf all_got stream stream-IsWriter history (connection, []) connection-IsTxBuf

run-fwd_cnt_example :
    let end = (run stream history (connection, [])).0 in
    (end.fwd_cnt + len end.tx_buf) % 2 ^ 32
    ≡ (connection.fwd_cnt
        + len connection.tx_buf
        + length (accepted all_got stream stream-IsWriter history (connection, [])))
      % 2 ^ 32
run-fwd_cnt_example =
    run-fwd_cnt all_got stream stream-IsWriter history (connection, []) connection-IsTxBuf

-- Four bytes are waiting, two of them at the front of the storage.
abbrev ring : TxBuf
ring = record {
  storage = some (copy_wrapped (or_zeroed none) 65534 (7 ∷ 8 ∷ 9 ∷ 10 ∷ []));
  head = 65538;
  tail = 65534;
}

ring-IsTxBuf : IsTxBuf ring
unfolding push TxBuf.new
ring-IsTxBuf =
    (push-Pushed (7 ∷ 8 ∷ 9 ∷ 10 ∷ []) (record { storage = none; head = 65534; tail = 65534 })
      (record {
        head_fits = omega arith;
        tail_fits = omega arith;
        len_fits = omega arith;
        storage_full = new-IsTxBuf.storage_full;
      })).1.0

flush_to-Flushed_example : Flushed all_got ring [] (flush_to stream 2 ring [])
flush_to-Flushed_example = flush_to-Flushed all_got stream stream-IsWriter 2 ring [] ring-IsTxBuf tt

push-Pushed_example : Pushed (7 ∷ 8 ∷ []) TxBuf.new (push TxBuf.new (7 ∷ 8 ∷ []))
push-Pushed_example = push-Pushed (7 ∷ 8 ∷ []) TxBuf.new new-IsTxBuf

data_pkt-Fits : Fits data_pkt
data_pkt-Fits = record {
  src_cid_fits = omega arith;
  dst_cid_fits = omega arith;
  src_port_fits = omega arith;
  dst_port_fits = omega arith;
  len_fits = omega arith;
  pkt_type_fits = omega arith;
  op_fits = omega arith;
  flags_fits = omega arith;
  buf_alloc_fits = omega arith;
  fwd_cnt_fits = omega arith;
}

-- Three bytes are left for the guest, which gives room for two, and the host has closed its stream.
abbrev with_rest : VsockConnection
with_rest = record connection { rx_buf = 5 ∷ 6 ∷ 7 ∷ []; host_closed = true }

share_of_rest : 1 ≤ share 2 with_rest
unfolding new_peer_init
share_of_rest = omega arith

recv_pkt-then_silent_example :
    let r = recv_pkt 0 2 (ready with_rest) in
    (payload_of r.1 ≡ take (share 2 with_rest) (5 ∷ 6 ∷ 7 ∷ []))
    × ((r.0.rx_buf ≡ drop (share 2 with_rest) (5 ∷ 6 ∷ 7 ∷ []))
        × ((r.0.host_closed ≡ true) × ((recv_pkt 1 100 r.0).1 ≡ err VsockError.no_data)))
recv_pkt-then_silent_example = recv_pkt-then_silent 0 1 2 100 with_rest share_of_rest

expiry_at_the_limit : has_expired 7 (record connection { expiry = some 7 }) ≡ true
unfolding has_expired
expiry_at_the_limit = refl

expiry_before_the_limit : will_expire 6 (record connection { expiry = some 7 }) ≡ true
unfolding will_expire
expiry_before_the_limit = refl

-- A queue of one chain whose packet has a header that is too short: it is answered, and no connection made.
abbrev short_packet : Work
short_packet = record {
  memory = record {
    host =
        0 ∷ 0 ∷ 1 ∷ 0 ∷ 0 ∷ 0 ∷ 0 ∷ 0 ∷ 40 ∷ 0 ∷ 0 ∷ 0 ∷ 0 ∷ 0 ∷ 0 ∷ 0 ∷ 2 ∷ 0 ∷ 0 ∷ 0 ∷ 0 ∷ 0 ∷ 0
        ∷ 0 ∷ 0 ∷ 0 ∷ 0 ∷ 0 ∷ 0 ∷ 0 ∷ 0 ∷ 0 ∷ 0 ∷ 0 ∷ 0 ∷ 0 ∷ 0 ∷ 0 ∷ 0 ∷ 0 ∷ 0 ∷ 0 ∷ [];
    guest_base = 0;
    huge_pages = false;
  };
  queue = record {
    max_size = 256;
    size = 1;
    ready = true;
    desc_table_addr = 8;
    avail_ring_addr = 0;
    used_ring_addr = 24;
    last_avail_idx = 0;
    last_used_idx = 0;
  };
  device = Device.new 3;
}

-- The same queue with a chain that asks for a connection.
abbrev request_memory : GuestMemory
request_memory = record {
  host =
      take 16 short_packet.memory.host
      ++ (44 ∷ 0 ∷ 0 ∷ 0 ∷ 0 ∷ 0 ∷ 0 ∷ 0 ∷ 0 ∷ 0 ∷ 0 ∷ 0 ∷ 0 ∷ 0 ∷ 0 ∷ 0 ∷ 0 ∷ 0 ∷ 0 ∷ 0 ∷ 0 ∷ 0 ∷ 0
          ∷ 0 ∷ [])
      ++ (3 ∷ 0 ∷ 0 ∷ 0 ∷ 0 ∷ 0 ∷ 0 ∷ 0 ∷ 2 ∷ 0 ∷ 0 ∷ 0 ∷ 0 ∷ 0 ∷ 0 ∷ 0 ∷ 0 ∷ 4 ∷ 0 ∷ 0 ∷ 52 ∷ 0 ∷ 0
          ∷ 0 ∷ [])
      ++ (0 ∷ 0 ∷ 0 ∷ 0 ∷ 1 ∷ 0 ∷ 1 ∷ 0 ∷ 0 ∷ 0 ∷ 0 ∷ 0 ∷ 0 ∷ 16 ∷ 0 ∷ 0 ∷ 0 ∷ 0 ∷ 0 ∷ 0 ∷ []);
  guest_base = 0;
  huge_pages = false;
}

abbrev one_request : Work
one_request = record short_packet { memory = request_memory }

-- The device looks at the queue, and has the connection afterwards.
abbrev requested : Work
requested = (serve_tx 0 one_request).0

request_dispatched : keys_where (λ c. true) requested.device.connections ≡ (52, 1024) ∷ []
unfolding serve_tx on_ok read_index read_bytes checked_access guest_to_host guest_offset checked_sub
    inside from_le_bytes handle_tx_chain read_packet Device.read_desc from_bytes handle_packet
    dispatch by_op from_u16 accept add_connection Maps.get Maps.insert Maps.remove answered
    write_used_entry then_write write_at write_bytes copy_at keys_where Device.new new_queue advance
    to_le_bytes
request_dispatched = refl

abbrev device_calls : List DeviceCall
device_calls =
    DeviceCall.connects 1073741824 52
    ∷ DeviceCall.brings (1073741824, 52) (1 ∷ 2 ∷ [])
    ∷ DeviceCall.configures 1 1 true 8 0 24
    ∷ DeviceCall.processes 0 1 request_memory
    ∷ DeviceCall.flushes (52, 1024)
    ∷ DeviceCall.closes (1073741824, 52)
    ∷ DeviceCall.expires 3000
    ∷ []

config_of_guest :
    read_config (Device.new 3) 0 (9 ∷ 9 ∷ 9 ∷ 9 ∷ 9 ∷ 9 ∷ 9 ∷ 9 ∷ 9 ∷ [])
    ≡ 3 ∷ 0 ∷ 0 ∷ 0 ∷ 0 ∷ 0 ∷ 0 ∷ 0 ∷ 0 ∷ []
unfolding read_config le_bytes Device.new
config_of_guest = refl
