-- ===== src/Vsock/States.antt =====
-- The states that a connection of vsock.rs goes through, until the device removes it after a reset.
use visor.Prelude.{
  ℕ, ◌≡◌, refl, ◌∙◌, Bool, true, false, not, ◌&&◌, ◌||◌, List, [], ◌∷◌, ◌⊎◌, inl, inr, Result, ok,
  err, length, ◌==◌, if_both, if_cases, arith,
}
use visor.Vsock.{VsockOp, op_code, VsockPacket}
use visor.Vsock.TxBuf
use visor.Vsock.TxBuf.{TxBuf, VsockError}
use visor.Vsock.Connection.{ConnState, VsockConnection, peer_avail_credit}
use visor.Vsock.Sending.{
  stored_into, receive_data, begin_shutdown, widen_shutdown, handle_pkt, take_credit, has_flag,
}
use visor.Vsock.Receiving.{
  Received, drain_data, nothing_left, deliver, recv_data_pkt, recv_credit_update, recv_pkt,
}

-- The steps between states. The diagram above `ConnState` has `accepts`, `confirms`, `peer_shuts` and
-- `host_shuts`, and killed only behind both closings. The code also stays, widens a shutdown, shuts down on the
-- host's side a connection that the peer still receives on, and kills from any state.
pub data Next : ConnState → ConnState → Type 0 where
  stays : (state : ConnState) → Next state state
  accepts : Next ConnState.peer_init ConnState.established
  confirms : Next ConnState.local_init ConnState.established
  peer_shuts :
      (no_recv no_send : Bool) → Next ConnState.established (ConnState.peer_closed no_recv no_send)
  peer_widens :
      (no_recv no_send more_recv more_send : Bool)
      → Next
          (ConnState.peer_closed no_recv no_send)
          (ConnState.peer_closed (no_recv || more_recv) (no_send || more_send))
  host_shuts : Next ConnState.established ConnState.local_closed
  host_shuts_too :
      (no_send : Bool) → Next (ConnState.peer_closed false no_send) ConnState.local_closed
  is_killed : (state : ConnState) → Next state ConnState.killed

-- A response is pending only before the connection is established, or behind a reset.
pub record Answering (c : VsockConnection) : Type 0 where
  pub before_reset :
      c.pending_rx.response ≡ true → (c.state ≡ ConnState.peer_init) ⊎ (c.pending_rx.rst ≡ true)

pub stays_at : {s t : ConnState} → t ≡ s → Next s t
stays_at {s} e = rw e (Next.stays s)

state-receive_data :
    (payload : List ℕ) (c : VsockConnection) → (receive_data payload c).0.state ≡ c.state
unfolding receive_data stored_into
state-receive_data [] c = refl
state-receive_data (byte ∷ payload) c = ground arith

pub handle_pkt-Next :
    (state : ConnState) (now : ℕ) (pkt : VsockPacket) (payload : List ℕ) (c : VsockConnection)
    → c.state ≡ state
    → Next state (handle_pkt state now pkt payload c).0.state
unfolding handle_pkt begin_shutdown widen_shutdown
handle_pkt-Next ConnState.established now pkt payload c e =
    let P = λ (r : VsockConnection × Result {0, 0} Unit VsockError).
      Next ConnState.established r.0.state in
    let no_recv = has_flag pkt.flags 1 in
    let no_send = has_flag pkt.flags 2 in
    let Q = λ (d : VsockConnection). Next ConnState.established d.state in
    if_both P (pkt.op == op_code VsockOp.rw_data) (stays_at (state-receive_data payload c ∙ e)) (
      if_both P (pkt.op == op_code VsockOp.shutdown)
        (if_both Q (no_recv && no_send)
          (if_both Q (TxBuf.is_empty c.tx_buf) (Next.peer_shuts no_recv no_send)
            (Next.peer_shuts no_recv no_send))
          (Next.peer_shuts no_recv no_send))
        (if_both P (pkt.op == op_code VsockOp.credit_request) (stays_at e) (stays_at e)))
handle_pkt-Next (ConnState.peer_closed no_recv no_send) now pkt payload c e =
    let P = λ (r : VsockConnection × Result {0, 0} Unit VsockError).
      Next (ConnState.peer_closed no_recv no_send) r.0.state in
    let Q = λ (d : VsockConnection). Next (ConnState.peer_closed no_recv no_send) d.state in
    let wider = Next.peer_widens no_recv no_send (has_flag pkt.flags 1) (has_flag pkt.flags 2) in
    if_both P (not no_send && pkt.op == op_code VsockOp.rw_data)
      (stays_at (state-receive_data payload c ∙ e))
      (if_both P (pkt.op == op_code VsockOp.shutdown)
        (if_both Q
          ((no_recv || has_flag pkt.flags 1)
            && ((no_send || has_flag pkt.flags 2) && TxBuf.is_empty c.tx_buf))
          wider wider)
        (if_both P (not no_send && pkt.op == op_code VsockOp.credit_request) (stays_at e)
          (stays_at e)))
handle_pkt-Next ConnState.local_init now pkt payload c e =
    if_both
      (λ (r : VsockConnection × Result {0, 0} Unit VsockError). Next ConnState.local_init r.0.state)
      (pkt.op == op_code VsockOp.response) Next.confirms (stays_at e)
handle_pkt-Next ConnState.peer_init now pkt payload c e =
    if_both
      (λ (r : VsockConnection × Result {0, 0} Unit VsockError). Next ConnState.peer_init r.0.state)
      (pkt.op == op_code VsockOp.credit_request) (stays_at e) (stays_at e)
handle_pkt-Next ConnState.local_closed now pkt payload c e = stays_at e
handle_pkt-Next ConnState.killed now pkt payload c e = stays_at e

pub state-take_credit :
    (pkt : VsockPacket) (c : VsockConnection) → (take_credit pkt c).state ≡ c.state
unfolding take_credit
state-take_credit pkt c = ground arith

deliver-Next :
    (state : ConnState) (now max_data_len : ℕ) (c : VsockConnection)
    → c.state ≡ state
    → Next state ConnState.local_closed
    → Next state (deliver now max_data_len c).0.state
unfolding deliver drain_data nothing_left
deliver-Next state now max_data_len c e shuts =
    let P = λ (r : Received). Next state r.0.state in
    if_both P (peer_avail_credit c == 0) (stays_at e) (
      if_both P (length c.rx_buf == 0) (if_both P c.host_closed shuts (stays_at e))
        (if_both P (max_data_len == 0) (stays_at e) (stays_at e)))

recv_data_pkt-Next :
    (state : ConnState) (now max_data_len : ℕ) (c : VsockConnection)
    → c.state ≡ state
    → Next state (recv_data_pkt state now max_data_len c).0.state
unfolding recv_data_pkt
recv_data_pkt-Next ConnState.established now max_data_len c e =
    deliver-Next ConnState.established now max_data_len c e Next.host_shuts
recv_data_pkt-Next (ConnState.peer_closed false no_send) now max_data_len c e =
    deliver-Next (ConnState.peer_closed false no_send) now max_data_len c e
      (Next.host_shuts_too no_send)
recv_data_pkt-Next (ConnState.peer_closed true no_send) now max_data_len c e = stays_at e
recv_data_pkt-Next ConnState.local_init now max_data_len c e = stays_at e
recv_data_pkt-Next ConnState.peer_init now max_data_len c e = stays_at e
recv_data_pkt-Next ConnState.local_closed now max_data_len c e = stays_at e
recv_data_pkt-Next ConnState.killed now max_data_len c e = stays_at e

state-recv_credit_update : (c : VsockConnection) → (recv_credit_update c).0.state ≡ c.state
unfolding recv_credit_update
state-recv_credit_update c = ground arith

response-recv_credit_update :
    (c : VsockConnection) → (recv_credit_update c).0.pending_rx.response ≡ c.pending_rx.response
unfolding recv_credit_update
response-recv_credit_update c = ground arith

response-recv_data_pkt :
    (state : ConnState) (now max_data_len : ℕ) (c : VsockConnection)
    → (recv_data_pkt state now max_data_len c).0.pending_rx.response ≡ c.pending_rx.response
unfolding recv_data_pkt deliver drain_data nothing_left
response-recv_data_pkt state now max_data_len c = ground arith

-- An answer that makes the device remove the connection.
abbrev pub is_reset : Result {0, 0} (VsockPacket × List ℕ) VsockError → Bool
is_reset (ok (pkt, payload)) = pkt.op == 3
is_reset (err e) = false

accepts_from :
    (c : VsockConnection)
    → Answering c
    → c.pending_rx.rst ≡ false
    → c.pending_rx.response ≡ true
    → Next c.state ConnState.established
accepts_from c a no_reset h = elim (a.before_reset h) [
  | inl e ↦ rw e Next.accepts
  | inr e ↦ absurd (ground (arith, e, no_reset))
]

pub no_response : {c : VsockConnection} → c.pending_rx.response ≡ false → Answering c
no_response e = record { before_reset = λ h. absurd (ground (arith, e, h)) }

-- The next state, and that the connection is removed or keeps the invariant.
abbrev pub Continues : ConnState → Received → Type 0
Continues state r = Next state r.0.state × ((is_reset r.1 ≡ true) ⊎ Answering r.0)

pub recv_pkt-Continues :
    (now max_data_len : ℕ) (c : VsockConnection)
    → Answering c
    → Continues c.state (recv_pkt now max_data_len c)
unfolding recv_pkt op_code
recv_pkt-Continues now max_data_len c a =
    let p = c.pending_rx in
    let taken : VsockConnection = record c { pending_rx = record p { rw_data = false } } in
    let P = Continues c.state in
    if_cases P p.rst (λ reset. (Next.stays c.state, inl refl))
      (λ no_reset.
        if_cases P p.response (λ h. (accepts_from c a no_reset h, inr (no_response refl)))
          (λ silent.
            if_cases P p.request (λ h. (Next.stays c.state, inr (no_response silent)))
              (λ old.
                if_cases P p.rw_data
                  (λ h. (
                    recv_data_pkt-Next c.state now max_data_len taken refl,
                    inr (
                        no_response
                          (response-recv_data_pkt c.state now max_data_len taken ∙ silent)),
                  ))
                  (λ h. (
                    stays_at (state-recv_credit_update c),
                    inr (no_response (response-recv_credit_update c ∙ silent)),
                  )))))
