-- ===== src/Vsock/Stream.antt =====
-- The bytes from the host to the guest through a connection of vsock.rs.
use visor.Prelude.{
  ℕ, zero, suc, ◌≡◌, refl, sym, ap, ◌∙◌, true, false, List, [], ◌∷◌, ◌++◌, Option, none, some,
  Result, ok, err, length, ◌==◌, if_both, take, drop, min, arith, append_assoc, append-nil,
}
use visor.Vsock.{VsockPacket}
use visor.Vsock.TxBuf
use visor.Vsock.TxBuf.{TxBuf, VsockError}
use visor.Vsock.Connection.{
  ConnState, VsockConnection, kill, push_host_data, notify_host_closed, after_flush, flushed_into,
  flush_tx_buf, peer_avail_credit,
}
use visor.Vsock.Sending.{
  stored_into, receive_data, begin_shutdown, widen_shutdown, handle_pkt, take_credit, send_pkt,
}
use visor.Vsock.Receiving.{
  Received, drain_data, nothing_left, deliver, recv_data_pkt, recv_credit_update, recv_pkt,
}

-- The calls on a connection.
pub data Call : Type 0 where
  host_data : (bytes : List ℕ) → Call
  host_closes : Call
  from_guest : (now : ℕ) (pkt : VsockPacket) (payload : List ℕ) → Call
  to_guest : (now max_data_len : ℕ) → Call
  flush : Call
  kills : Call

abbrev pub payload_of : Result {0, 0} (VsockPacket × List ℕ) VsockError → List ℕ
payload_of (ok (pkt, payload)) = payload
payload_of (err e) = []

-- The bytes that a call brings from the host, and the bytes that it hands to the guest.
abbrev pub brings : Call → List ℕ
brings (Call.host_data bytes) = bytes
brings _ = []

abbrev pub hands : Call → VsockConnection → List ℕ
hands (Call.to_guest now max_data_len) c = payload_of (recv_pkt now max_data_len c).1
hands _ c = []

abbrev pub flushed_or :
    {R S : Type 0} → VsockConnection → S → Option (R × VsockConnection × S) → VsockConnection × S
flushed_or c s none = (c, s)
flushed_or c s (some (r, c', s')) = (c', s')

take-drop : (n : ℕ) (xs : List ℕ) → take n xs ++ drop n xs ≡ xs
take-drop zero xs = refl
take-drop (suc n) [] = refl
take-drop (suc n) (x ∷ xs) = ap (◌∷◌ x) (take-drop n xs)

rx_buf-receive_data :
    (payload : List ℕ) (c : VsockConnection) → (receive_data payload c).0.rx_buf ≡ c.rx_buf
unfolding receive_data stored_into
rx_buf-receive_data [] c = refl
rx_buf-receive_data (byte ∷ payload) c = ground arith

rx_buf-handle_pkt :
    (state : ConnState) (now : ℕ) (pkt : VsockPacket) (payload : List ℕ) (c : VsockConnection)
    → (handle_pkt state now pkt payload c).0.rx_buf ≡ c.rx_buf
unfolding handle_pkt begin_shutdown widen_shutdown
rx_buf-handle_pkt ConnState.established now pkt payload c =
    ground (arith, rx_buf-receive_data payload c)
rx_buf-handle_pkt (ConnState.peer_closed no_recv no_send) now pkt payload c =
    ground (arith, rx_buf-receive_data payload c)
rx_buf-handle_pkt ConnState.local_init now pkt payload c = ground arith
rx_buf-handle_pkt ConnState.peer_init now pkt payload c = ground arith
rx_buf-handle_pkt ConnState.local_closed now pkt payload c = refl
rx_buf-handle_pkt ConnState.killed now pkt payload c = refl

rx_buf-send_pkt :
    (now : ℕ) (pkt : VsockPacket) (payload : List ℕ) (c : VsockConnection)
    → (send_pkt now pkt payload c).0.rx_buf ≡ c.rx_buf
unfolding send_pkt take_credit
rx_buf-send_pkt now pkt payload c =
    rx_buf-handle_pkt c.state now pkt payload (take_credit pkt c) ∙ ground arith

-- What a packet for the guest takes from the buffer, it holds.
abbrev Taken : VsockConnection → Received → Type 0
Taken c r = payload_of r.1 ++ r.0.rx_buf ≡ c.rx_buf

deliver-Taken : (now max_data_len : ℕ) (c : VsockConnection) → Taken c (deliver now max_data_len c)
unfolding deliver drain_data nothing_left
deliver-Taken now max_data_len c = if_both (Taken c) (peer_avail_credit c == 0) refl (
    if_both (Taken c) (length c.rx_buf == 0) (if_both (Taken c) c.host_closed refl refl) (
      if_both (Taken c) (max_data_len == 0) refl
        (take-drop (min (min max_data_len (peer_avail_credit c)) (length c.rx_buf)) c.rx_buf)))

recv_data_pkt-Taken :
    (state : ConnState) (now max_data_len : ℕ) (c : VsockConnection)
    → Taken c (recv_data_pkt state now max_data_len c)
unfolding recv_data_pkt
recv_data_pkt-Taken ConnState.established now max_data_len c = deliver-Taken now max_data_len c
recv_data_pkt-Taken (ConnState.peer_closed false no_send) now max_data_len c =
    deliver-Taken now max_data_len c
recv_data_pkt-Taken (ConnState.peer_closed true no_send) now max_data_len c = refl
recv_data_pkt-Taken ConnState.local_init now max_data_len c = refl
recv_data_pkt-Taken ConnState.peer_init now max_data_len c = refl
recv_data_pkt-Taken ConnState.local_closed now max_data_len c = refl
recv_data_pkt-Taken ConnState.killed now max_data_len c = refl

recv_credit_update-Taken : (c : VsockConnection) → Taken c (recv_credit_update c)
unfolding recv_credit_update
recv_credit_update-Taken c = ground arith

recv_pkt-Taken :
    (now max_data_len : ℕ) (c : VsockConnection) → Taken c (recv_pkt now max_data_len c)
unfolding recv_pkt
recv_pkt-Taken now max_data_len c =
    let p = c.pending_rx in
    let taken : VsockConnection = record c { pending_rx = record p { rw_data = false } } in
    if_both (Taken c) p.rst refl (
      if_both (Taken c) p.response refl (
        if_both (Taken c) p.request refl (
          if_both (Taken c) p.rw_data (recv_data_pkt-Taken c.state now max_data_len taken)
            (recv_credit_update-Taken c))))

module _ {S : Type 0} (sink : TxBuf.Sink S) where
  unfoldable pub step : Call → VsockConnection × S → VsockConnection × S
  step (Call.host_data bytes) (c, s) = (push_host_data bytes c, s)
  step Call.host_closes (c, s) = (notify_host_closed c, s)
  step (Call.from_guest now pkt payload) (c, s) = ((send_pkt now pkt payload c).0, s)
  step (Call.to_guest now max_data_len) (c, s) = ((recv_pkt now max_data_len c).0, s)
  step Call.flush (c, s) = flushed_or c s (flush_tx_buf sink c s)
  step Call.kills (c, s) = (kill c, s)

  unfoldable pub run : List Call → VsockConnection × S → VsockConnection × S
  run [] state = state
  run (call ∷ calls) state = run calls (step call state)

  -- What the guest is handed in all.
  unfoldable pub handed : List Call → VsockConnection × S → List ℕ
  handed [] state = []
  handed (call ∷ calls) state = hands call state.0 ++ handed calls (step call state)

  unfoldable pub brought : List Call → List ℕ
  brought [] = []
  brought (call ∷ calls) = brings call ++ brought calls

  rx_buf-flush :
      (c : VsockConnection) (s : S) → (flushed_or c s (flush_tx_buf sink c s)).0.rx_buf ≡ c.rx_buf
  unfolding flush_tx_buf flushed_into after_flush
  rx_buf-flush c s = ground arith

  step-rx_buf :
      (call : Call) (c : VsockConnection) (s : S)
      → hands call c ++ (step call (c, s)).0.rx_buf ≡ c.rx_buf ++ brings call
  unfolding step push_host_data notify_host_closed kill
  step-rx_buf (Call.host_data bytes) c s = refl
  step-rx_buf Call.host_closes c s = sym (append-nil c.rx_buf)
  step-rx_buf (Call.from_guest now pkt payload) c s =
      rx_buf-send_pkt now pkt payload c ∙ sym (append-nil c.rx_buf)
  step-rx_buf (Call.to_guest now max_data_len) c s =
      recv_pkt-Taken now max_data_len c ∙ sym (append-nil c.rx_buf)
  step-rx_buf Call.flush c s = rx_buf-flush c s ∙ sym (append-nil c.rx_buf)
  step-rx_buf Call.kills c s = sym (append-nil c.rx_buf)

  -- Over any history of calls, whatever the guest sends and the sink accepts, the bytes handed to the guest
  -- and those still in the buffer are the bytes that were in the buffer and those that the host brought, in
  -- order: none is lost, repeated or moved.
  pub run-rx_buf :
      (calls : List Call) (state : VsockConnection × S)
      → handed calls state ++ (run calls state).0.rx_buf ≡ state.0.rx_buf ++ brought calls
  unfolding run handed brought
  run-rx_buf [] (c, s) = sym (append-nil c.rx_buf)
  run-rx_buf (call ∷ calls) (c, s) =
      let after = step call (c, s) in
      append_assoc (hands call c) (handed calls after) (run calls after).0.rx_buf
      ∙ ap (◌++◌ (hands call c)) (run-rx_buf calls after)
      ∙ sym (append_assoc (hands call c) after.0.rx_buf (brought calls))
      ∙ ap (λ (t : List ℕ). t ++ brought calls) (step-rx_buf call c s)
      ∙ append_assoc c.rx_buf (brings call) (brought calls)
