-- ===== src/Vsock/Closing.antt =====
-- What vsock.rs does for the guest after a packet with bytes of the host.
use visor.Prelude.{
  ℕ, ◌≤◌, ◌≡◌, refl, ap, ◌∙◌, true, err, length, ◌==◌, if_cases, take, drop, min, arith,
}
use visor.Vsock.TxBuf.{VsockError}
use visor.Vsock.Connection.{
  ConnState, VsockConnection, PendingRxSet, no_indication, peer_avail_credit,
}
use visor.Vsock.Receiving.{
  Received, drain_data, deliver, recv_data_pkt, recv_credit_update, recv_pkt,
}
use visor.Vsock.Stream.{payload_of}

-- An established connection that has bytes of the host or the end of its stream to tell, and nothing else.
abbrev pub ready : VsockConnection → VsockConnection
ready c = record c {
  state = ConnState.established;
  pending_rx = record no_indication { rw_data = true };
}

-- The same when the indication has been taken.
abbrev taken : VsockConnection → VsockConnection
taken c = record c { state = ConnState.established; pending_rx = no_indication }

-- How many bytes the packet takes.
abbrev pub share : ℕ → VsockConnection → ℕ
share max_data_len c = min (min max_data_len (peer_avail_credit c)) (length c.rx_buf)

recv-drain_data :
    (now max_data_len : ℕ) (c : VsockConnection)
    → 1 ≤ share max_data_len c
    → recv_pkt now max_data_len (ready c) ≡ drain_data max_data_len (taken c)
unfolding recv_pkt recv_data_pkt deliver
recv-drain_data now max_data_len c some_data =
    let P = λ (r : Received). r ≡ drain_data max_data_len (taken c) in
    if_cases P (peer_avail_credit c == 0) (λ h. absurd (ground (arith, h, some_data)))
      (λ _.
        if_cases P (length c.rx_buf == 0) (λ h. absurd (ground (arith, h, some_data)))
          (λ _.
            if_cases P (max_data_len == 0) (λ h. absurd (ground (arith, h, some_data)))
              (λ _. refl)))

unpended :
    (now max_data_len : ℕ) (c : VsockConnection)
    → c.pending_rx ≡ no_indication
    → (recv_pkt now max_data_len c).1 ≡ err VsockError.no_data
unfolding recv_pkt recv_credit_update
unpended now max_data_len c e = ground (
  arith,
  ap (λ (p : PendingRxSet). p.rst) e,
  ap (λ (p : PendingRxSet). p.response) e,
  ap (λ (p : PendingRxSet). p.request) e,
  ap (λ (p : PendingRxSet). p.rw_data) e,
  ap (λ (p : PendingRxSet). p.credit_update) e,
)

-- An established connection with only bytes of the host pending, whether or not the host has closed its
-- stream: if the guest has room and credit for some of the bytes, the next packet has as many of them as
-- fit. Then there is no packet at all, neither for the bytes that are left nor for the end of the stream.
pub recv_pkt-then_silent :
    (now later max_data_len more : ℕ) (c : VsockConnection)
    → 1 ≤ share max_data_len c
    → let r = recv_pkt now max_data_len (ready c) in
      (payload_of r.1 ≡ take (share max_data_len c) c.rx_buf)
      × ((r.0.rx_buf ≡ drop (share max_data_len c) c.rx_buf)
          × ((r.0.host_closed ≡ c.host_closed)
              × ((recv_pkt later more r.0).1 ≡ err VsockError.no_data)))
unfolding drain_data recv_credit_update
recv_pkt-then_silent now later max_data_len more c some_data =
    let e = recv-drain_data now max_data_len c some_data in
    (
      ap (λ (r : Received). payload_of r.1) e,
      (
        ap (λ (r : Received). r.0.rx_buf) e,
        (
          ap (λ (r : Received). r.0.host_closed) e,
          ap (λ (r : Received). (recv_pkt later more r.0).1) e
              ∙ unpended later more (drain_data max_data_len (taken c)).0 refl,
        ),
      ),
    )
