-- ===== src/Vsock/Credit.antt =====
-- The credit that a connection of vsock.rs keeps to towards the guest.
use visor.Prelude.{
  ℕ, zero, suc, ◌≡◌, refl, true, false, not, ◌&&◌, List, [], ◌∷◌, length, ◌==◌, if_both, take, min,
  arith, ◌≤◌, ◌<◌,
}
use visor.Vsock.Connection.{ConnState, VsockConnection, any_pending, peer_avail_credit}
use visor.Vsock.Receiving.{
  Received, drain_data, nothing_left, deliver, recv_data_pkt, recv_credit_update, recv_pkt,
}
use visor.Vsock.TxBuf.{wrapping_add, wrapping_sub}
use visor.Vsock.Stream.{payload_of}

-- The bytes that the guest was sent and has not reported as read.
abbrev pub in_flight : VsockConnection → ℕ
in_flight c = wrapping_sub c.rx_cnt c.peer_fwd_cnt

pub record InCredit (c : VsockConnection) : Type 0 where
  pub rx_cnt_small : c.rx_cnt < 4294967296
  pub peer_fwd_cnt_small : c.peer_fwd_cnt < 4294967296
  pub peer_buf_alloc_small : c.peer_buf_alloc < 4294967296
  pub within : in_flight c ≤ c.peer_buf_alloc

-- What was sent is counted, and no more than the credit.
pub record Sent (c : VsockConnection) (r : Received) : Type 0 where
  pub sent : r.0.rx_cnt ≡ wrapping_add c.rx_cnt (length (payload_of r.1))
  pub alloc_kept : r.0.peer_buf_alloc ≡ c.peer_buf_alloc
  pub fwd_kept : r.0.peer_fwd_cnt ≡ c.peer_fwd_cnt
  pub bounded : length (payload_of r.1) ≤ peer_avail_credit c

length-take-le : (n : ℕ) (xs : List ℕ) → length (take n xs) ≤ n
length-take-le zero xs = omega arith
length-take-le (suc n) [] = omega arith
length-take-le (suc n) (x ∷ xs) = omega (arith, length-take-le n xs)

unsent :
    {c : VsockConnection} {r : Received}
    → c.rx_cnt < 4294967296
    → r.0.rx_cnt ≡ c.rx_cnt
    → r.0.peer_buf_alloc ≡ c.peer_buf_alloc
    → r.0.peer_fwd_cnt ≡ c.peer_fwd_cnt
    → payload_of r.1 ≡ []
    → Sent c r
unsent small same alloc fwd e = record {
  sent = rw e (omega (arith, small, same));
  alloc_kept = alloc;
  fwd_kept = fwd;
  bounded = rw e (omega arith);
}

drain_data-Sent : (max_data_len : ℕ) (c : VsockConnection) → Sent c (drain_data max_data_len c)
unfolding drain_data
drain_data-Sent max_data_len c =
    let n = min (min max_data_len (peer_avail_credit c)) (length c.rx_buf) in
    record {
      sent = refl;
      alloc_kept = refl;
      fwd_kept = refl;
      bounded = omega (arith, length-take-le n c.rx_buf);
    }

nothing_left-Sent :
    (now : ℕ) (c : VsockConnection) → c.rx_cnt < 4294967296 → Sent c (nothing_left now c)
unfolding nothing_left
nothing_left-Sent now c small =
    if_both (Sent c) c.host_closed (unsent small refl refl refl refl)
      (unsent small refl refl refl refl)

deliver-Sent :
    (now max_data_len : ℕ) (c : VsockConnection)
    → c.rx_cnt < 4294967296
    → Sent c (deliver now max_data_len c)
unfolding deliver
deliver-Sent now max_data_len c small =
    if_both (Sent c) (peer_avail_credit c == 0) (unsent small refl refl refl refl) (
      if_both (Sent c) (length c.rx_buf == 0) (nothing_left-Sent now c small) (
        if_both (Sent c) (max_data_len == 0) (unsent small refl refl refl refl)
          (drain_data-Sent max_data_len c)))

recv_data_pkt-Sent :
    (state : ConnState) (now max_data_len : ℕ) (c : VsockConnection)
    → c.rx_cnt < 4294967296
    → Sent c (recv_data_pkt state now max_data_len c)
unfolding recv_data_pkt
recv_data_pkt-Sent ConnState.established now max_data_len c small =
    deliver-Sent now max_data_len c small
recv_data_pkt-Sent (ConnState.peer_closed false no_send) now max_data_len c small =
    deliver-Sent now max_data_len c small
recv_data_pkt-Sent (ConnState.peer_closed true no_send) now max_data_len c small =
    unsent small refl refl refl refl
recv_data_pkt-Sent ConnState.local_init now max_data_len c small = unsent small refl refl refl refl
recv_data_pkt-Sent ConnState.peer_init now max_data_len c small = unsent small refl refl refl refl
recv_data_pkt-Sent ConnState.local_closed now max_data_len c small =
    unsent small refl refl refl refl
recv_data_pkt-Sent ConnState.killed now max_data_len c small = unsent small refl refl refl refl

recv_credit_update-Sent :
    (c : VsockConnection) → c.rx_cnt < 4294967296 → Sent c (recv_credit_update c)
unfolding recv_credit_update
recv_credit_update-Sent c small =
    if_both (Sent c)
      (c.pending_rx.credit_update
        && not (any_pending (record c.pending_rx { credit_update = false })))
      (unsent small refl refl refl refl) (unsent small refl refl refl refl)

pub recv_pkt-Sent :
    (now max_data_len : ℕ) (c : VsockConnection)
    → c.rx_cnt < 4294967296
    → Sent c (recv_pkt now max_data_len c)
unfolding recv_pkt
recv_pkt-Sent now max_data_len c small =
    let p = c.pending_rx in
    let taken : VsockConnection = record c { pending_rx = record p { rw_data = false } } in
    let data_sent = recv_data_pkt-Sent c.state now max_data_len taken small in
    let none_sent = recv_credit_update-Sent c small in
    if_both (Sent c) p.rst (unsent small refl refl refl refl) (
      if_both (Sent c) p.response (unsent small refl refl refl refl) (
        if_both (Sent c) p.request (unsent small refl refl refl refl) (
          if_both (Sent c) p.rw_data
            (record {
              sent = data_sent.sent;
              alloc_kept = data_sent.alloc_kept;
              fwd_kept = data_sent.fwd_kept;
              bounded = data_sent.bounded;
            })
            none_sent)))
