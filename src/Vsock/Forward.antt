-- ===== src/Vsock/Forward.antt =====
-- The bytes from the guest to the host's stream through a connection of vsock.rs.
use visor.Prelude.{
  ℕ, ◌+◌, ◌%◌, ◌^◌, ◌≡◌, refl, sym, ap, ◌∙◌, List, [], ◌∷◌, ◌++◌, Option, none, some, Result, ok,
  err, length, arith, append_assoc, append-nil, length-append, subst,
}
use visor.Vsock.TxBuf
use visor.Vsock.TxBuf.{TxBuf, VsockError, conn_tx_buf_size, len, push, flush_to}
use visor.Vsock.Fifo.{content, length-content, IsTxBuf}
use visor.Vsock.Draining.{IsWriter, Flushed, flush_to-Flushed}
use visor.Vsock.Connection.{
  VsockConnection, kill, push_host_data, notify_host_closed, after_flush, flushed_into,
  flush_tx_buf,
}
use visor.Vsock.Sending.{send_pkt}
use visor.Vsock.Receiving.{recv_pkt}
use visor.Vsock.Stream.{Call, flushed_or, step, run}
use visor.Vsock.Accepting.{data_of, Queued, untouched, send_pkt-Queued, recv_pkt-Queued}

abbrev pub accepts : Call → VsockConnection → List ℕ
accepts (Call.from_guest now pkt payload) c =
    data_of c.state pkt payload (send_pkt now pkt payload c).1
accepts _ c = []

-- What a call adds to the stream: in the order it came in, each byte with the sink or in the ring, and the
-- ring's counter of the bytes that went on counts those that are not in the ring.
pub record Forwards {S : Type 0} (got : S → List ℕ) (c : VsockConnection) (s : S)
    (c' : VsockConnection) (s' : S) (added : List ℕ) : Type 0 where
  pub ring : IsTxBuf c'.tx_buf
  order : got s' ++ content c'.tx_buf ≡ (got s ++ content c.tx_buf) ++ added
  counted :
      (c'.fwd_cnt + len c'.tx_buf) % 2 ^ 32 ≡ (c.fwd_cnt + len c.tx_buf + length added) % 2 ^ 32

Queued-Forwards :
    {S : Type 0} (got : S → List ℕ) (c : VsockConnection) (s : S) (c' : VsockConnection)
    (added : List ℕ)
    → Queued c c' added
    → Forwards got c s c' s added
Queued-Forwards got c s c' added q =
    let longer : len c'.tx_buf ≡ len c.tx_buf + length added =
      sym (length-content c'.tx_buf)
      ∙ ap length q.order
      ∙ length-append (content c.tx_buf) added
      ∙ ap (λ (n : ℕ). n + length added) (length-content c.tx_buf) in
    let sum : c'.fwd_cnt + len c'.tx_buf ≡ c.fwd_cnt + len c.tx_buf + length added =
      rw (longer, q.counted) (omega arith) in
    record {
      ring = q.ring;
      order = ap (◌++◌ (got s)) q.order ∙ sym (append_assoc (got s) (content c.tx_buf) added);
      counted = ap (λ (n : ℕ). n % 2 ^ 32) sum;
    }

tx_buf-after_flush : (n : ℕ) (b : TxBuf) (c : VsockConnection) → (after_flush n b c).tx_buf ≡ b
unfolding after_flush
tx_buf-after_flush n b c = ground arith

fwd_cnt-after_flush :
    (n : ℕ) (b : TxBuf) (c : VsockConnection)
    → (after_flush n b c).fwd_cnt ≡ (c.fwd_cnt + n) % 2 ^ 32
unfolding after_flush
fwd_cnt-after_flush n b c = ground arith

module _ {S : Type 0} (got : S → List ℕ) (sink : TxBuf.Sink S) (is_writer : IsWriter got sink) where
  flushed_into-Forwards :
      (c : VsockConnection) (s : S) (o : Option (Result {0, 0} ℕ VsockError × TxBuf × S))
      → Flushed got c.tx_buf s o
      → let r = flushed_or c s (flushed_into c o) in Forwards got c s r.0 r.1 []
  unfolding flushed_into
  flushed_into-Forwards c s none h = absurd h
  flushed_into-Forwards c s (some (err e, b, s')) (ring, (order, (_, same))) = record {
    ring = ring;
    order = order ∙ sym (append-nil (got s ++ content c.tx_buf));
    counted = rw same (omega arith);
  }
  flushed_into-Forwards c s (some (ok n, b, s')) (ring, (order, moved)) =
      let at = tx_buf-after_flush n b c in
      let counts = fwd_cnt-after_flush n b c in
      let same_len : len (after_flush n b c).tx_buf ≡ len b = ap len at in
      record {
        ring = subst IsTxBuf (sym at) ring;
        order =
            ap (λ (t : TxBuf). got s' ++ content t) at
            ∙ order
            ∙ sym (append-nil (got s ++ content c.tx_buf));
        counted = rw (counts, same_len) (omega (arith, moved));
      }

  pub step-Forwards :
      (call : Call) (c : VsockConnection) (s : S)
      → IsTxBuf c.tx_buf
      → let r = step sink call (c, s) in Forwards got c s r.0 r.1 (accepts call c)
  unfolding step push_host_data notify_host_closed kill flush_tx_buf
  step-Forwards (Call.host_data bytes) c s inv =
      Queued-Forwards got c s (push_host_data bytes c) [] (untouched inv refl refl)
  step-Forwards Call.host_closes c s inv =
      Queued-Forwards got c s (notify_host_closed c) [] (untouched inv refl refl)
  step-Forwards Call.kills c s inv = Queued-Forwards got c s (kill c) [] (untouched inv refl refl)
  step-Forwards (Call.from_guest now pkt payload) c s inv =
      Queued-Forwards got c s (send_pkt now pkt payload c).0
        (accepts (Call.from_guest now pkt payload) c) (send_pkt-Queued now pkt payload c inv)
  step-Forwards (Call.to_guest now max_data_len) c s inv =
      Queued-Forwards got c s (recv_pkt now max_data_len c).0 []
        (recv_pkt-Queued now max_data_len c inv)
  step-Forwards Call.flush c s inv =
      flushed_into-Forwards c s (flush_to sink 2 c.tx_buf s)
        (flush_to-Flushed got sink is_writer 2 c.tx_buf s inv tt)

  -- The bytes that a history of calls accepts from the guest.
  unfoldable pub accepted : List Call → VsockConnection × S → List ℕ
  accepted [] state = []
  accepted (call ∷ calls) state = accepts call state.0 ++ accepted calls (step sink call state)

  -- Over any history of calls on a connection with a well-formed ring, with a sink that takes the front of
  -- each slice or fails: the bytes in the sink and then those in the ring are the ones that were there and
  -- those of the data packets that the connection was open for and answered without error, in order. Open
  -- it is when established, or closed by the peer for receiving only. The ring stays well-formed.
  pub run-tx_buf :
      (calls : List Call) (state : VsockConnection × S)
      → IsTxBuf state.0.tx_buf
      → let end = run sink calls state in
        (got end.1 ++ content end.0.tx_buf
          ≡ (got state.1 ++ content state.0.tx_buf) ++ accepted calls state)
        × IsTxBuf end.0.tx_buf
  unfolding run accepted
  run-tx_buf [] (c, s) inv = (sym (append-nil (got s ++ content c.tx_buf)), inv)
  run-tx_buf (call ∷ calls) (c, s) inv =
      let f = step-Forwards call c s inv in
      let after = step sink call (c, s) in
      let rest = run-tx_buf calls after f.ring in
      (
        rest.0
            ∙ ap (λ (t : List ℕ). t ++ accepted calls after) f.order
            ∙ append_assoc (got s ++ content c.tx_buf) (accepts call c) (accepted calls after),
        rest.1,
      )

  -- Over the same histories, the counter of forwarded bytes that is reported to the guest, together with the
  -- bytes in the ring, counts every byte that was accepted, modulo 2 ^ 32.
  pub run-fwd_cnt :
      (calls : List Call) (state : VsockConnection × S)
      → IsTxBuf state.0.tx_buf
      → let end = (run sink calls state).0 in
        (end.fwd_cnt + len end.tx_buf) % 2 ^ 32
        ≡ (state.0.fwd_cnt + len state.0.tx_buf + length (accepted calls state)) % 2 ^ 32
  unfolding run accepted
  run-fwd_cnt [] (c, s) inv = ap (λ (n : ℕ). n % 2 ^ 32) (omega arith)
  run-fwd_cnt (call ∷ calls) (c, s) inv =
      let f = step-Forwards call c s inv in
      let after = step sink call (c, s) in
      let rest = run-fwd_cnt calls after f.ring in
      let sum = length-append (accepts call c) (accepted calls after) in
      rest ∙ omega (arith, f.counted, sum)
