-- ===== src/Vsock/Accepting.antt =====
-- What a packet from the guest adds to the ring of a connection of vsock.rs, and what other calls do to it.
use visor.Prelude.{
  ℕ, ◌≡◌, refl, sym, ap, ◌∙◌, Bool, true, false, not, ◌&&◌, List, [], ◌∷◌, ◌++◌, inl, inr, Result,
  ok, err, ◌==◌, if_both, if◌then◌else◌, arith, append-nil, subst, Bool-cases,
}
use visor.Vsock.{VsockOp, op_code, VsockPacket}
use visor.Vsock.TxBuf.{TxBuf, VsockError, push}
use visor.Vsock.Fifo.{content, IsTxBuf, Pushed, push-Pushed}
use visor.Vsock.Connection.{ConnState, VsockConnection, peer_needs_credit_update}
use visor.Vsock.Sending.{
  stored_into, receive_data, begin_shutdown, widen_shutdown, handle_pkt, take_credit, send_pkt,
}
use visor.Vsock.Receiving.{
  drain_data, nothing_left, deliver, recv_data_pkt, recv_credit_update, recv_pkt,
}

-- A connection that the guest may still send through.
abbrev pub is_open : ConnState → Bool
is_open ConnState.established = true
is_open (ConnState.peer_closed no_recv no_send) = not no_send
is_open _ = false

abbrev pub if_ok : Result {0, 0} Unit VsockError → List ℕ → List ℕ
if_ok (ok _) payload = payload
if_ok (err _) payload = []

-- The bytes that a packet brings: those of a data packet of an open connection that is answered without error.
-- Other connections answer it without error as well, and drop it.
abbrev pub data_of : ConnState → VsockPacket → List ℕ → Result {0, 0} Unit VsockError → List ℕ
data_of state pkt payload result =
    if is_open state && pkt.op == op_code VsockOp.rw_data then if_ok result payload else []

pub record Queued (c c' : VsockConnection) (added : List ℕ) : Type 0 where
  pub ring : IsTxBuf c'.tx_buf
  pub order : content c'.tx_buf ≡ content c.tx_buf ++ added
  pub counted : c'.fwd_cnt ≡ c.fwd_cnt

pub untouched :
    {c c' : VsockConnection}
    → IsTxBuf c.tx_buf
    → c'.tx_buf ≡ c.tx_buf
    → c'.fwd_cnt ≡ c.fwd_cnt
    → Queued c c' []
untouched {c = c} inv same counted = record {
  ring = subst IsTxBuf (sym same) inv;
  order = ap content same ∙ sym (append-nil (content c.tx_buf));
  counted = counted;
}

stored_into-Queued :
    (payload : List ℕ) (c : VsockConnection) (result : Result {0, 0} TxBuf VsockError)
    → Pushed payload c.tx_buf result
    → IsTxBuf c.tx_buf
    → Queued c (stored_into c result).0 (if_ok (stored_into c result).1 payload)
unfolding stored_into
stored_into-Queued payload c (err e) p inv = untouched inv refl refl
stored_into-Queued payload c (ok tx_buf) (_, (ring, order)) inv =
    let stored = record c { tx_buf = tx_buf } in
    let q : Queued c stored payload = record { ring = ring; order = order; counted = refl } in
    if_both (λ (d : VsockConnection). Queued c d payload) (peer_needs_credit_update stored)
      (record { ring = ring; order = order; counted = refl }) q

receive_data-Queued :
    (payload : List ℕ) (c : VsockConnection)
    → IsTxBuf c.tx_buf
    → Queued c (receive_data payload c).0 (if_ok (receive_data payload c).1 payload)
unfolding receive_data
receive_data-Queued [] c inv = untouched inv refl refl
receive_data-Queued (byte ∷ payload) c inv =
    let src = byte ∷ payload in
    stored_into-Queued src c (push c.tx_buf src) (push-Pushed src c.tx_buf inv) inv

handle_pkt-Queued :
    (state : ConnState) (now : ℕ) (pkt : VsockPacket) (payload : List ℕ) (c : VsockConnection)
    → IsTxBuf c.tx_buf
    → let r = handle_pkt state now pkt payload c in Queued c r.0 (data_of state pkt payload r.1)
unfolding handle_pkt begin_shutdown widen_shutdown
handle_pkt-Queued ConnState.established now pkt payload c inv =
    elim (Bool-cases (pkt.op == op_code VsockOp.rw_data)) [
      | inl bytes ↦ rw bytes (receive_data-Queued payload c inv)
      | inr other ↦ rw other (untouched inv (ground arith) (ground arith))
    ]
handle_pkt-Queued (ConnState.peer_closed no_recv no_send) now pkt payload c inv =
    elim (Bool-cases (not no_send && pkt.op == op_code VsockOp.rw_data)) [
      | inl bytes ↦ rw bytes (receive_data-Queued payload c inv)
      | inr other ↦ rw other (untouched inv (ground arith) (ground arith))
    ]
handle_pkt-Queued ConnState.local_init now pkt payload c inv =
    untouched inv (ground arith) (ground arith)
handle_pkt-Queued ConnState.peer_init now pkt payload c inv =
    untouched inv (ground arith) (ground arith)
handle_pkt-Queued ConnState.local_closed now pkt payload c inv = untouched inv refl refl
handle_pkt-Queued ConnState.killed now pkt payload c inv = untouched inv refl refl

ring-take_credit : (pkt : VsockPacket) (c : VsockConnection) → (take_credit pkt c).tx_buf ≡ c.tx_buf
unfolding take_credit
ring-take_credit pkt c = ground arith

fwd_cnt-take_credit :
    (pkt : VsockPacket) (c : VsockConnection) → (take_credit pkt c).fwd_cnt ≡ c.fwd_cnt
unfolding take_credit
fwd_cnt-take_credit pkt c = ground arith

pub send_pkt-Queued :
    (now : ℕ) (pkt : VsockPacket) (payload : List ℕ) (c : VsockConnection)
    → IsTxBuf c.tx_buf
    → let r = send_pkt now pkt payload c in Queued c r.0 (data_of c.state pkt payload r.1)
unfolding send_pkt
send_pkt-Queued now pkt payload c inv =
    let told = take_credit pkt c in
    let same = ring-take_credit pkt c in
    let q = handle_pkt-Queued c.state now pkt payload told (subst IsTxBuf (sym same) inv) in
    let r = handle_pkt c.state now pkt payload told in
    record {
      ring = q.ring;
      order = q.order ∙ ap (λ (b : TxBuf). content b ++ data_of c.state pkt payload r.1) same;
      counted = q.counted ∙ fwd_cnt-take_credit pkt c;
    }

pub recv_pkt-Queued :
    (now max_data_len : ℕ) (c : VsockConnection)
    → IsTxBuf c.tx_buf
    → Queued c (recv_pkt now max_data_len c).0 []
unfolding recv_pkt recv_data_pkt deliver drain_data nothing_left recv_credit_update
recv_pkt-Queued now max_data_len c inv = untouched inv (ground arith) (ground arith)
