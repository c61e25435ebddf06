-- ===== src/Vsock/Lives.antt =====
-- Histories of a connection of vsock.rs, from its creation until the device removes it.
use visor.Prelude.{
  ℕ, ◌≡◌, refl, sym, ◌∙◌, Bool, true, false, List, [], ◌∷◌, ◌⊎◌, inl, inr, if◌then◌else◌, arith,
  Bool-cases, subst,
}
use visor.Vsock.{VsockPacket}
use visor.Vsock.TxBuf
use visor.Vsock.TxBuf.{TxBuf, VsockError}
use visor.Vsock.Connection.{
  ConnState, VsockConnection, kill, push_host_data, notify_host_closed, after_flush, flushed_into,
  flush_tx_buf,
}
use visor.Vsock.Sending.{
  stored_into, receive_data, begin_shutdown, widen_shutdown, handle_pkt, take_credit, send_pkt,
}
use visor.Vsock.Receiving.{recv_pkt}
use visor.Vsock.Connection.{new_peer_init, new_local_init}
use visor.Vsock.Stream.{Call, flushed_or, step}
use visor.Vsock.States.{
  Next, Answering, stays_at, handle_pkt-Next, state-take_credit, recv_pkt-Continues, no_response,
  is_reset,
}

-- Calls that leave a pending response alone.
record Quiet (c c' : VsockConnection) : Type 0 where
  response_same : c'.pending_rx.response ≡ c.pending_rx.response
  rst_kept : c.pending_rx.rst ≡ true → c'.pending_rx.rst ≡ true
  init_kept : c.state ≡ ConnState.peer_init → c'.state ≡ ConnState.peer_init

Quiet-Answering : {c c' : VsockConnection} → Quiet c c' → Answering c → Answering c'
Quiet-Answering q a = record {
  before_reset = λ h. elim (a.before_reset (sym q.response_same ∙ h)) [
    | inl e ↦ inl (q.init_kept e)
    | inr e ↦ inr (q.rst_kept e)
  ];
}

quiet :
    {c c' : VsockConnection}
    → c'.state ≡ c.state
    → c'.pending_rx.response ≡ c.pending_rx.response
    → (c.pending_rx.rst ≡ true → c'.pending_rx.rst ≡ true)
    → Quiet c c'
quiet state response rst = record {
  response_same = response;
  rst_kept = rst;
  init_kept = λ e. state ∙ e;
}

peer_init-handle_pkt :
    (state : ConnState) (now : ℕ) (pkt : VsockPacket) (payload : List ℕ) (c : VsockConnection)
    → state ≡ ConnState.peer_init
    → (handle_pkt state now pkt payload c).0.state ≡ c.state
unfolding handle_pkt
peer_init-handle_pkt state now pkt payload c e = rw (e, handle_pkt) (ground arith)

pending-receive_data :
    (payload : List ℕ) (c : VsockConnection)
    → ((receive_data payload c).0.pending_rx.response ≡ c.pending_rx.response)
      × ((receive_data payload c).0.pending_rx.rst ≡ c.pending_rx.rst)
unfolding receive_data stored_into
pending-receive_data [] c = (refl, refl)
pending-receive_data (byte ∷ payload) c = (ground arith, ground arith)

handle_pkt-Quiet :
    (now : ℕ) (pkt : VsockPacket) (payload : List ℕ) (c : VsockConnection)
    → Quiet c (handle_pkt c.state now pkt payload c).0
unfolding handle_pkt begin_shutdown widen_shutdown
handle_pkt-Quiet now pkt payload c =
    let d = pending-receive_data payload c in
    record {
      response_same = ground (arith, d.0);
      rst_kept = λ h. (ground (arith, h, d.1));
      init_kept = λ e. peer_init-handle_pkt c.state now pkt payload c e ∙ e;
    }

take_credit-Quiet : (pkt : VsockPacket) (c : VsockConnection) → Quiet c (take_credit pkt c)
unfolding take_credit
take_credit-Quiet pkt c = quiet (ground arith) (ground arith) (λ h. (ground (arith, h)))

-- A call that is answered by a reset is the last one.
abbrev pub is_last : Call → VsockConnection → Bool
is_last (Call.to_guest now max_data_len) c = is_reset (recv_pkt now max_data_len c).1
is_last _ c = false

module _ {S : Type 0} (sink : TxBuf.Sink S) where
  flush-Quiet : (c : VsockConnection) (s : S) → Quiet c (flushed_or c s (flush_tx_buf sink c s)).0
  unfolding flush_tx_buf flushed_into after_flush
  flush-Quiet c s = quiet (ground arith) (ground arith) (λ h. (ground (arith, h)))

  state-flush :
      (c : VsockConnection) (s : S) → (flushed_or c s (flush_tx_buf sink c s)).0.state ≡ c.state
  unfolding flush_tx_buf flushed_into after_flush
  state-flush c s = ground arith

  step-Continues :
      (call : Call) (c : VsockConnection) (s : S)
      → Answering c
      → Next c.state (step sink call (c, s)).0.state
        × ((is_last call c ≡ true) ⊎ Answering (step sink call (c, s)).0)
  unfolding step push_host_data notify_host_closed kill send_pkt
  step-Continues (Call.host_data bytes) c s a =
      (Next.stays c.state, inr (Quiet-Answering (quiet refl refl (λ h. h)) a))
  step-Continues Call.host_closes c s a =
      (Next.stays c.state, inr (Quiet-Answering (quiet refl refl (λ h. h)) a))
  step-Continues (Call.from_guest now pkt payload) c s a =
      let told = take_credit pkt c in
      let same = state-take_credit pkt c in
      (
        handle_pkt-Next c.state now pkt payload told same,
        inr (
            subst (λ (state : ConnState). Answering (handle_pkt state now pkt payload told).0) same
              (Quiet-Answering (handle_pkt-Quiet now pkt payload told)
                (Quiet-Answering (take_credit-Quiet pkt c) a))),
      )
  step-Continues (Call.to_guest now max_data_len) c s a = recv_pkt-Continues now max_data_len c a
  step-Continues Call.flush c s a =
      (stays_at (state-flush c s), inr (Quiet-Answering (flush-Quiet c s) a))
  step-Continues Call.kills c s a =
      (Next.is_killed c.state, inr (record { before_reset = λ h. inr refl }))

  -- Every state of a history comes from the one before along an arrow.
  unfoldable pub Walks : List Call → VsockConnection × S → Type 0
  Walks [] state = Unit
  Walks (call ∷ calls) state =
      Next state.0.state (step sink call state).0.state
      × (if is_last call state.0 then Unit {0} else Walks calls (step sink call state))

  -- Whatever the guest, the host and the sink do: from a new connection on, and until it is removed after
  -- a reset, every call takes a step of `Next`: a handshake ends, the guest or the host shuts down or
  -- the guest widens its shutdown, the connection is killed, or the state stays.
  pub calls-Walks :
      (calls : List Call) (state : VsockConnection × S) → Answering state.0 → Walks calls state
  unfolding Walks
  calls-Walks [] state a = tt
  calls-Walks (call ∷ calls) (c, s) a =
      let moved = step-Continues call c s a in
      (
        moved.0,
        elim (Bool-cases (is_last call c)) [
          | inl last ↦ rw last tt
          | inr more ↦ rw more (elim moved.1 [
            | inl last ↦ absurd (ground (arith, last, more))
            | inr b ↦ calls-Walks calls (step sink call (c, s)) b
          ])
        ],
      )

-- New connections are in the invariant.
pub new_peer_init-Answering :
    (local_cid peer_cid local_port peer_port peer_buf_alloc : ℕ)
    → Answering (new_peer_init local_cid peer_cid local_port peer_port peer_buf_alloc)
unfolding new_peer_init
new_peer_init-Answering local_cid peer_cid local_port peer_port peer_buf_alloc = record {
  before_reset = λ h. inl refl;
}

pub new_local_init-Answering :
    (local_cid peer_cid local_port peer_port : ℕ)
    → Answering (new_local_init local_cid peer_cid local_port peer_port)
unfolding new_local_init
new_local_init-Answering local_cid peer_cid local_port peer_port = no_response refl
