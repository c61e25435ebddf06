-- ===== src/Vsock/Ports.antt =====
-- The ports of a connection of vsock.rs are those it was made with.
use visor.Prelude.{ℕ, ◌≡◌, refl, ◌∙◌, List, [], ◌∷◌, arith}
use visor.Vsock.{VsockPacket}
use visor.Vsock.Connection.{ConnState, VsockConnection}
use visor.Vsock.Sending.{
  stored_into, receive_data, begin_shutdown, widen_shutdown, handle_pkt, take_credit, send_pkt,
}
use visor.Vsock.Receiving.{
  drain_data, nothing_left, deliver, recv_data_pkt, recv_credit_update, recv_pkt,
}

ports-receive_data :
    (payload : List ℕ) (c : VsockConnection)
    → ((receive_data payload c).0.local_port ≡ c.local_port)
      × ((receive_data payload c).0.peer_port ≡ c.peer_port)
unfolding receive_data stored_into
ports-receive_data [] c = (refl, refl)
ports-receive_data (byte ∷ payload) c = (ground arith, ground arith)

ports-handle_pkt :
    (state : ConnState) (now : ℕ) (pkt : VsockPacket) (payload : List ℕ) (c : VsockConnection)
    → ((handle_pkt state now pkt payload c).0.local_port ≡ c.local_port)
      × ((handle_pkt state now pkt payload c).0.peer_port ≡ c.peer_port)
unfolding handle_pkt begin_shutdown widen_shutdown
ports-handle_pkt state now pkt payload c =
    let d = ports-receive_data payload c in (ground (arith, d.0), ground (arith, d.1))

pub ports-send_pkt :
    (now : ℕ) (pkt : VsockPacket) (payload : List ℕ) (c : VsockConnection)
    → ((send_pkt now pkt payload c).0.local_port ≡ c.local_port)
      × ((send_pkt now pkt payload c).0.peer_port ≡ c.peer_port)
unfolding send_pkt take_credit
ports-send_pkt now pkt payload c =
    let d = ports-handle_pkt c.state now pkt payload (take_credit pkt c) in
    (d.0 ∙ ground arith, d.1 ∙ ground arith)

pub ports-recv_pkt :
    (now max_data_len : ℕ) (c : VsockConnection)
    → ((recv_pkt now max_data_len c).0.local_port ≡ c.local_port)
      × ((recv_pkt now max_data_len c).0.peer_port ≡ c.peer_port)
unfolding recv_pkt recv_data_pkt deliver drain_data nothing_left recv_credit_update
ports-recv_pkt now max_data_len c = (ground arith, ground arith)
