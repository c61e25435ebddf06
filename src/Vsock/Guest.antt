-- ===== src/Vsock/Guest.antt =====
-- What a guest that keeps to the protocol is sent by a connection of vsock.rs.
use visor.Prelude.{ℕ, ◌+◌, ◌≡◌, refl, ◌∙◌, List, [], ◌∷◌, length, arith, ◌≤◌, ◌<◌}
use visor.Vsock.{VsockPacket}
use visor.Vsock.TxBuf
use visor.Vsock.TxBuf.{TxBuf, VsockError}
use visor.Vsock.Connection.{
  ConnState, VsockConnection, kill, push_host_data, notify_host_closed, after_flush, flushed_into,
  flush_tx_buf,
}
use visor.Vsock.Sending.{
  stored_into, receive_data, begin_shutdown, widen_shutdown, handle_pkt, take_credit, send_pkt,
}
use visor.Vsock.Receiving.{recv_pkt}
use visor.Vsock.TxBuf.{wrapping_add, wrapping_sub}
use visor.Vsock.Stream.{Call, hands, flushed_or, step}
use visor.Vsock.Credit.{InCredit, in_flight, recv_pkt-Sent}

-- The counters that the credit is made of.
record SameCredit (c c' : VsockConnection) : Type 0 where
  rx_cnt_same : c'.rx_cnt ≡ c.rx_cnt
  alloc_same : c'.peer_buf_alloc ≡ c.peer_buf_alloc
  fwd_same : c'.peer_fwd_cnt ≡ c.peer_fwd_cnt

-- Other calls leave the counters alone.
receive_data-SameCredit :
    (payload : List ℕ) (c : VsockConnection) → SameCredit c (receive_data payload c).0
unfolding receive_data stored_into
receive_data-SameCredit [] c = record { rx_cnt_same = refl; alloc_same = refl; fwd_same = refl }
receive_data-SameCredit (byte ∷ payload) c = record {
  rx_cnt_same = ground arith;
  alloc_same = ground arith;
  fwd_same = ground arith;
}

handle_pkt-SameCredit :
    (state : ConnState) (now : ℕ) (pkt : VsockPacket) (payload : List ℕ) (c : VsockConnection)
    → SameCredit c (handle_pkt state now pkt payload c).0
unfolding handle_pkt begin_shutdown widen_shutdown
handle_pkt-SameCredit state now pkt payload c =
    let d = receive_data-SameCredit payload c in
    record {
      rx_cnt_same = ground (arith, d.rx_cnt_same);
      alloc_same = ground (arith, d.alloc_same);
      fwd_same = ground (arith, d.fwd_same);
    }

-- A guest that reports no more bytes as read than it was sent, and a buffer that holds the others.
abbrev pub IsHonest : VsockPacket → VsockConnection → Type 0
IsHonest pkt c =
    (pkt.fwd_cnt < 4294967296)
    × ((pkt.buf_alloc < 4294967296) × (wrapping_sub c.rx_cnt pkt.fwd_cnt ≤ pkt.buf_alloc))

kept :
    {c c' : VsockConnection}
    → InCredit c
    → c'.rx_cnt ≡ c.rx_cnt
    → c'.peer_buf_alloc ≡ c.peer_buf_alloc
    → c'.peer_fwd_cnt ≡ c.peer_fwd_cnt
    → InCredit c'
kept v rx alloc fwd = record {
  rx_cnt_small = rw rx v.rx_cnt_small;
  peer_fwd_cnt_small = rw fwd v.peer_fwd_cnt_small;
  peer_buf_alloc_small = rw alloc v.peer_buf_alloc_small;
  within = rw (rx, alloc, fwd) v.within;
}

send_pkt-InCredit :
    (now : ℕ) (pkt : VsockPacket) (payload : List ℕ) (c : VsockConnection)
    → IsHonest pkt c
    → InCredit c
    → InCredit (send_pkt now pkt payload c).0
unfolding send_pkt take_credit
send_pkt-InCredit now pkt payload c (fwd, (alloc, fits)) v =
    let s = handle_pkt-SameCredit c.state now pkt payload (take_credit pkt c) in
    let rx : (take_credit pkt c).rx_cnt ≡ c.rx_cnt = ground arith in
    let pa : (take_credit pkt c).peer_buf_alloc ≡ pkt.buf_alloc = ground arith in
    let pf : (take_credit pkt c).peer_fwd_cnt ≡ pkt.fwd_cnt = ground arith in
    let told : InCredit (record c { peer_buf_alloc = pkt.buf_alloc; peer_fwd_cnt = pkt.fwd_cnt }) =
      record {
        rx_cnt_small = v.rx_cnt_small;
        peer_fwd_cnt_small = fwd;
        peer_buf_alloc_small = alloc;
        within = fits;
      } in
    kept told (s.rx_cnt_same ∙ rx) (s.alloc_same ∙ pa) (s.fwd_same ∙ pf)

recv_pkt-InCredit :
    (now max_data_len : ℕ) (c : VsockConnection)
    → InCredit c
    → InCredit (recv_pkt now max_data_len c).0
recv_pkt-InCredit now max_data_len c v =
    let s = recv_pkt-Sent now max_data_len c v.rx_cnt_small in
    record {
      rx_cnt_small = omega (arith, s.sent);
      peer_fwd_cnt_small = omega (arith, s.fwd_kept, v.peer_fwd_cnt_small);
      peer_buf_alloc_small = omega (arith, s.alloc_kept, v.peer_buf_alloc_small);
      within = omega (
        arith, s.sent, s.fwd_kept, s.alloc_kept, s.bounded, v.within, v.rx_cnt_small,
        v.peer_fwd_cnt_small, v.peer_buf_alloc_small,
      );
    }

module _ {S : Type 0} (sink : TxBuf.Sink S) where
  flush-SameCredit :
      (c : VsockConnection) (s : S) → SameCredit c (flushed_or c s (flush_tx_buf sink c s)).0
  unfolding flush_tx_buf flushed_into after_flush
  flush-SameCredit c s = record {
    rx_cnt_same = ground arith;
    alloc_same = ground arith;
    fwd_same = ground arith;
  }

  -- What the guest puts into its packets along a history.
  unfoldable pub Honest : List Call → VsockConnection × S → Type 0
  Honest [] state = Unit
  Honest (Call.from_guest now pkt payload ∷ calls) state =
      IsHonest pkt state.0 × Honest calls (step sink (Call.from_guest now pkt payload) state)
  Honest (call ∷ calls) state = Honest calls (step sink call state)

  -- The guest has room for every packet when it is handed to it.
  unfoldable pub HasRoom : List Call → VsockConnection × S → Type 0
  HasRoom [] state = Unit
  HasRoom (call ∷ calls) state =
      (length (hands call state.0) + in_flight state.0 ≤ state.0.peer_buf_alloc)
      × HasRoom calls (step sink call state)

  -- From a connection in credit, whatever the host brings and the sink accepts: a guest that never reports
  -- more bytes as read than it was sent, and never a buffer smaller than what is on the way, is never
  -- handed more bytes than its buffer has room for.
  pub calls-HasRoom :
      (calls : List Call) (state : VsockConnection × S)
      → Honest calls state
      → InCredit state.0
      → HasRoom calls state
  unfolding Honest HasRoom step push_host_data notify_host_closed kill
  calls-HasRoom [] state h v = tt
  calls-HasRoom (Call.host_data bytes ∷ calls) (c, s) h v = (
    omega (arith, v.within),
    calls-HasRoom calls (push_host_data bytes c, s) h (kept v refl refl refl),
  )
  calls-HasRoom (Call.host_closes ∷ calls) (c, s) h v = (
    omega (arith, v.within),
    calls-HasRoom calls (notify_host_closed c, s) h (kept v refl refl refl),
  )
  calls-HasRoom (Call.kills ∷ calls) (c, s) h v =
      (omega (arith, v.within), calls-HasRoom calls (kill c, s) h (kept v refl refl refl))
  calls-HasRoom (Call.flush ∷ calls) (c, s) h v =
      let k = flush-SameCredit c s in
      (
        omega (arith, v.within),
        calls-HasRoom calls (flushed_or c s (flush_tx_buf sink c s)) h
            (kept v k.rx_cnt_same k.alloc_same k.fwd_same),
      )
  calls-HasRoom (Call.from_guest now pkt payload ∷ calls) (c, s) (h, hs) v = (
    omega (arith, v.within),
    calls-HasRoom calls ((send_pkt now pkt payload c).0, s) hs
        (send_pkt-InCredit now pkt payload c h v),
  )
  calls-HasRoom (Call.to_guest now max_data_len ∷ calls) (c, s) h v =
      let sent = recv_pkt-Sent now max_data_len c v.rx_cnt_small in
      (
        omega (
          arith, sent.bounded, v.within, v.rx_cnt_small, v.peer_fwd_cnt_small,
          v.peer_buf_alloc_small,
        ),
        calls-HasRoom calls ((recv_pkt now max_data_len c).0, s) h
            (recv_pkt-InCredit now max_data_len c v),
      )
