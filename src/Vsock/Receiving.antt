-- ===== src/Vsock/Receiving.antt =====
-- `recv_pkt` of vsock.rs: the next packet of a connection for the guest.
use visor.Prelude.{
  ℕ, ◌+◌, true, false, not, ◌&&◌, List, [], some, Result, ok, err, length, ◌==◌, if◌then◌else◌,
  take, drop, min,
}
use visor.Vsock.{VsockOp, op_code, VsockPacket}
use visor.Vsock.TxBuf.{VsockError, wrapping_add, conn_tx_buf_size}
use visor.Vsock.Connection.{
  ConnState, any_pending, VsockConnection, pend_rw, peer_avail_credit, request_timeout_ms,
  shutdown_timeout_ms,
}

unfoldable pub init_pkt : VsockConnection → VsockPacket
init_pkt c = record {
  src_cid = c.local_cid;
  dst_cid = c.peer_cid;
  src_port = c.local_port;
  dst_port = c.peer_port;
  len = 0;
  pkt_type = 1;
  op = 0;
  flags = 0;
  buf_alloc = conn_tx_buf_size;
  fwd_cnt = c.fwd_cnt;
}

abbrev pub Received : Type 0
Received = VsockConnection × Result {0, 0} (VsockPacket × List ℕ) VsockError

-- A packet without data.
abbrev pub control : VsockConnection → VsockOp → VsockConnection → Received
control c op c' = (c', ok (record (init_pkt c) { op = op_code op }, []))

-- What is left of `recv_data_pkt` where data is delivered.
unfoldable pub drain_data : ℕ → VsockConnection → Received
drain_data max_data_len c =
    let drain_len = min (min max_data_len (peer_avail_credit c)) (length c.rx_buf) in
    let payload = take drain_len c.rx_buf in
    (
      record c {
        rx_buf = drop drain_len c.rx_buf;
        rx_cnt = wrapping_add c.rx_cnt (length payload);
        last_fwd_cnt_to_peer = c.fwd_cnt;
      },
      ok (record (init_pkt c) { op = op_code VsockOp.rw_data; len = length payload }, payload),
    )

-- No data is there: the end of the host's stream is told, if it has come.
unfoldable pub nothing_left : ℕ → VsockConnection → Received
nothing_left now c =
    if c.host_closed
    then (
      record c { state = ConnState.local_closed; expiry = some (now + shutdown_timeout_ms) },
      ok (record (init_pkt c) { op = op_code VsockOp.shutdown; flags = 3 }, []),
    )
    else (c, err VsockError.no_data)

unfoldable pub deliver : ℕ → ℕ → VsockConnection → Received
deliver now max_data_len c =
    if peer_avail_credit c == 0
    then control c VsockOp.credit_request (pend_rw (record c { last_fwd_cnt_to_peer = c.fwd_cnt }))
    else (if length c.rx_buf == 0
        then nothing_left now c
        else (if max_data_len == 0
            then (pend_rw c, err VsockError.no_data)
            else drain_data max_data_len c))

unfoldable pub recv_data_pkt : ConnState → ℕ → ℕ → VsockConnection → Received
recv_data_pkt ConnState.established now max_data_len c = deliver now max_data_len c
recv_data_pkt (ConnState.peer_closed false no_send) now max_data_len c = deliver now max_data_len c
recv_data_pkt (ConnState.peer_closed true no_send) now max_data_len c = control c VsockOp.rst c
recv_data_pkt ConnState.local_init now max_data_len c = (pend_rw c, err VsockError.no_data)
recv_data_pkt ConnState.peer_init now max_data_len c = (pend_rw c, err VsockError.no_data)
recv_data_pkt ConnState.local_closed now max_data_len c = control c VsockOp.rst c
recv_data_pkt ConnState.killed now max_data_len c = control c VsockOp.rst c

-- The last priority: only if nothing else is pending.
unfoldable pub recv_credit_update : VsockConnection → Received
recv_credit_update conn =
    let c = record conn { pending_rx = record conn.pending_rx { credit_update = false } } in
    if conn.pending_rx.credit_update && not (any_pending c.pending_rx)
    then control c VsockOp.credit_update (record c { last_fwd_cnt_to_peer = c.fwd_cnt })
    else (c, err VsockError.no_data)

unfoldable pub recv_pkt : ℕ → ℕ → VsockConnection → Received
recv_pkt now max_data_len c =
    let p = c.pending_rx in
    let answered = record c {
      state = ConnState.established;
      pending_rx = record p { response = false };
    } in
    let asked = record c {
      expiry = some (now + request_timeout_ms);
      pending_rx = record p { request = false };
    } in
    let taken = record c { pending_rx = record p { rw_data = false } } in
    if p.rst
    then control c VsockOp.rst (record c { pending_rx = record p { rst = false } })
    else (if p.response
        then control c VsockOp.response answered
        else (if p.request
            then control c VsockOp.request asked
            else (if p.rw_data
                then recv_data_pkt c.state now max_data_len taken
                else recv_credit_update c)))
