-- ===== src/Vsock/Sending.antt =====
-- `send_pkt` of vsock.rs: what a connection does with a packet from the guest.
use visor.Prelude.{
  ℕ, ◌+◌, Bool, not, ◌&&◌, ◌||◌, List, [], ◌∷◌, none, some, Result, ok, err, length, ltb, ◌==◌,
  if◌then◌else◌, bit_and,
}
use visor.Vsock.{VsockOp, op_code, VsockPacket}
use visor.Vsock.TxBuf
use visor.Vsock.TxBuf.{TxBuf, VsockError, wrapping_add, wrapping_sub, conn_tx_buf_size}
use visor.Vsock.Connection.{
  ConnState, VsockConnection, pend_rst, pend_rw, pend_credit_update, peer_avail_credit,
  peer_needs_credit_update, shutdown_timeout_ms,
}

abbrev pub has_flag : ℕ → ℕ → Bool
has_flag flags mask = not (bit_and flags mask == 0)

-- What follows the push.
unfoldable pub stored_into :
    VsockConnection
    → Result {0, 0} TxBuf VsockError
    → VsockConnection × Result {0, 0} Unit VsockError
stored_into c (err e) = (c, err e)
stored_into c (ok tx_buf) =
    let stored = record c { tx_buf = tx_buf } in
    ((if peer_needs_credit_update stored then pend_credit_update stored else stored), ok tt)

unfoldable pub receive_data :
    List ℕ → VsockConnection → VsockConnection × Result {0, 0} Unit VsockError
receive_data [] c = (c, ok tt)
receive_data (byte ∷ payload) c = stored_into c (TxBuf.push c.tx_buf (byte ∷ payload))

unfoldable pub begin_shutdown : ℕ → Bool → Bool → VsockConnection → VsockConnection
begin_shutdown now no_recv no_send conn =
    let c = record conn { state = ConnState.peer_closed no_recv no_send } in
    if no_recv && no_send
    then (if TxBuf.is_empty c.tx_buf
        then pend_rst c
        else record c { expiry = some (now + shutdown_timeout_ms) })
    else c

unfoldable pub widen_shutdown : Bool → Bool → VsockConnection → VsockConnection
widen_shutdown no_recv no_send conn =
    let c = record conn { state = ConnState.peer_closed no_recv no_send } in
    if no_recv && (no_send && TxBuf.is_empty c.tx_buf) then pend_rst c else c

-- The `match` of `send_pkt` on the state and the operation.
unfoldable pub handle_pkt :
    ConnState
    → ℕ
    → VsockPacket
    → List ℕ
    → VsockConnection
    → VsockConnection × Result {0, 0} Unit VsockError
handle_pkt ConnState.established now pkt payload c =
    let no_recv = has_flag pkt.flags 1 in
    let no_send = has_flag pkt.flags 2 in
    if pkt.op == op_code VsockOp.rw_data
    then receive_data payload c
    else (if pkt.op == op_code VsockOp.shutdown
        then (begin_shutdown now no_recv no_send c, ok tt)
        else (if pkt.op == op_code VsockOp.credit_request
            then (pend_credit_update c, ok tt)
            else (c, ok tt)))
handle_pkt (ConnState.peer_closed no_recv no_send) now pkt payload c =
    if not no_send && pkt.op == op_code VsockOp.rw_data
    then receive_data payload c
    else (if pkt.op == op_code VsockOp.shutdown
        then (
          widen_shutdown (no_recv || has_flag pkt.flags 1) (no_send || has_flag pkt.flags 2) c,
          ok tt,
        )
        else (if not no_send && pkt.op == op_code VsockOp.credit_request
            then (pend_credit_update c, ok tt)
            else (c, ok tt)))
handle_pkt ConnState.local_init now pkt payload c =
    if pkt.op == op_code VsockOp.response
    then (record c { state = ConnState.established; expiry = none }, ok tt)
    else (c, ok tt)
handle_pkt ConnState.peer_init now pkt payload c =
    if pkt.op == op_code VsockOp.credit_request then (pend_credit_update c, ok tt) else (c, ok tt)
handle_pkt ConnState.local_closed now pkt payload c = (c, ok tt)
handle_pkt ConnState.killed now pkt payload c = (c, ok tt)

-- The credit that every packet carries.
unfoldable pub take_credit : VsockPacket → VsockConnection → VsockConnection
take_credit pkt conn =
    let c = record conn { peer_buf_alloc = pkt.buf_alloc; peer_fwd_cnt = pkt.fwd_cnt } in
    if ltb 0 (peer_avail_credit c) && ltb 0 (length c.rx_buf) then pend_rw c else c

unfoldable pub send_pkt :
    ℕ → VsockPacket → List ℕ → VsockConnection → VsockConnection × Result {0, 0} Unit VsockError
send_pkt now pkt payload c = handle_pkt c.state now pkt payload (take_credit pkt c)
