-- ===== src/Vsock/Serving.antt =====
-- The connections and the indices of the device of vsock.rs over an iteration of the loop over a queue.
use visor.Prelude.{
  ℕ, ◌<◌, ◌≡◌, refl, sym, List, [], ◌∷◌, Option, none, some, Result, ok, err, length, ◌==◌, if_both,
  arith, subst, All,
}
use visor.Prelude.Maps
use visor.Memory.{GuestMemory}
use visor.Virtio.{VirtQueue}
use visor.Rng.{VirtqDesc}
use visor.Vsock.Connection.{VsockConnection, any_pending}
use visor.Vsock.Receiving.{Received, recv_pkt}
use visor.Vsock.Device
use visor.Vsock.Device.{
  QueueError, ConnMapKey, key_discrete, VsockDevice, add_connection, remove_connection, keys_where,
  remove_all, host_cid, expire_connections, handle_tx_chain, read_desc, read_index, Written,
  write_at, write_used_entry,
}
use visor.Vsock.Queues.{
  Work, Outcome, advance, answered, head_offset, on_ok, serve_tx, Found, asked, ask, first_packet,
  rx_room, fill_rx, serve_rx, after_packet, write_packet,
}
use visor.Vsock.Tracked.{
  IsTracked, AllTracked, IfSome, get-AllTracked, add-AllTracked, dropped-AllTracked,
  received-IsTracked, handle_tx_chain-AllTracked,
}

abbrev pub IsIndex : VirtQueue → Type 0
IsIndex q = q.last_avail_idx < 65536

pub record IsDevice (d : VsockDevice) : Type 0 where
  pub tracked : AllTracked d.connections
  pub indices : All IsIndex d.queues

-- The same of the device and the copy of its queue.
abbrev pub IsWork : Work → Type 0
IsWork w = IsIndex w.queue × IsDevice w.device

pub with_connections :
    (d d' : VsockDevice)
    → d'.queues ≡ d.queues
    → AllTracked d'.connections
    → IsDevice d
    → IsDevice d'
with_connections d d' same t i = record {
  tracked = t;
  indices = subst (All IsIndex) (sym same) i.indices;
}

queues-handle_tx_chain :
    (now : ℕ) (m : GuestMemory) (q : VirtQueue) (head_idx : ℕ) (d : VsockDevice)
    → (handle_tx_chain now m q head_idx d).queues ≡ d.queues
unfolding handle_tx_chain Device.handle_packet Device.dispatch Device.by_op Device.accept
    Device.forward add_connection remove_connection
queues-handle_tx_chain now m q head_idx d = ground arith

-- An iteration whose device is as it should be whether it fails or not.
answered-IsWork :
    (failed d : VsockDevice) (q : VirtQueue) (r : Written)
    → IsIndex q
    → IsDevice failed
    → IsDevice d
    → IsWork (answered failed d q r).0
unfolding answered advance
answered-IsWork failed d q (m, ok done) i f h = (omega arith, h)
answered-IsWork failed d q (m, err e) i f h = (i, f)

on_ok-IsWork :
    {A : Type 0} (w : Work) (r : Result {0, 0} A QueueError) (next : A → Outcome)
    → IsWork w
    → ((a : A) → IsWork (next a).0)
    → IsWork (on_ok w r next).0
unfolding on_ok
on_ok-IsWork w (ok a) next i h = h a
on_ok-IsWork w (err e) next i h = i

pub serve_tx-IsWork : (now : ℕ) (w : Work) → IsWork w → IsWork (serve_tx now w).0
unfolding serve_tx
serve_tx-IsWork now w i =
    let handled = λ (head_idx : ℕ). handle_tx_chain now w.memory w.queue head_idx w.device in
    let entry = λ (head_idx : ℕ). write_used_entry w.queue head_idx 0 w.memory in
    on_ok-IsWork w (read_index w.memory w.queue (head_offset w.queue))
      (λ head_idx. answered (handled head_idx) (handled head_idx) w.queue (entry head_idx)) i
      (λ head_idx.
        let after =
          with_connections w.device (handled head_idx)
            (queues-handle_tx_chain now w.memory w.queue head_idx w.device)
            (handle_tx_chain-AllTracked now w.memory w.queue head_idx w.device i.1.tracked) i.1 in
        answered-IsWork (handled head_idx) (handled head_idx) w.queue (entry head_idx) i.0 after
          after)

pub add-IsDevice :
    (key : ConnMapKey) (c : VsockConnection) (d : VsockDevice)
    → IsTracked (key, c)
    → IsDevice d
    → IsDevice (add_connection key c d)
unfolding add_connection
add-IsDevice key c d t i =
    with_connections d (add_connection key c d) refl (add-AllTracked key c d t i.tracked) i

pub dropped-IsDevice :
    (key : ConnMapKey) (d : VsockDevice) → IsDevice d → IsDevice (remove_connection key d)
unfolding remove_connection
dropped-IsDevice key d i =
    with_connections d (remove_connection key d) refl (dropped-AllTracked key d i.tracked) i

asked-IsDevice :
    (again : VsockDevice → Found) (key : ConnMapKey) (d : VsockDevice) (r : Received)
    → ((v : VsockDevice) → IsDevice v → IsDevice (again v).0)
    → IsTracked (key, r.0)
    → IsDevice d
    → IsDevice (asked again key d r).0
unfolding asked
asked-IsDevice again key d (c, ok (pkt, payload)) h t i = add-IsDevice key c d t i
asked-IsDevice again key d (c, err e) h t i = h (add_connection key c d) (add-IsDevice key c d t i)

ask-IsDevice :
    (now room : ℕ) (again : VsockDevice → Found) (key : ConnMapKey) (d : VsockDevice)
    (found : Option VsockConnection)
    → ((v : VsockDevice) → IsDevice v → IsDevice (again v).0)
    → IfSome key found
    → IsDevice d
    → IsDevice (ask now room again key d found).0
unfolding ask
ask-IsDevice now room again key d none h t i = h d i
ask-IsDevice now room again key d (some c) h t i =
    asked-IsDevice again key d (recv_pkt now room c) h (received-IsTracked now room key c t) i

first_packet-IsDevice :
    (now room : ℕ) (keys : List ConnMapKey) (d : VsockDevice)
    → IsDevice d
    → IsDevice (first_packet now room keys d).0
unfolding first_packet
first_packet-IsDevice now room [] d i = i
first_packet-IsDevice now room (key ∷ keys) d i =
    ask-IsDevice now room (first_packet now room keys) key d
      (Maps.get key_discrete key d.connections) (first_packet-IsDevice now room keys)
      (get-AllTracked key d.connections i.tracked) i

fill_rx-IsWork :
    (head_idx : ℕ) (desc : VirtqDesc) (room : Option ℕ × ℕ) (w : Work) (found : Found)
    → IsIndex w.queue
    → IsDevice found.0
    → IsWork (fill_rx head_idx desc room w found).0
unfolding fill_rx after_packet
fill_rx-IsWork head_idx desc (addr, room) w (d, none) q i = (q, i)
fill_rx-IsWork head_idx desc (addr, room) w (d, some (key, pkt, payload)) q i =
    answered-IsWork d (after_packet key pkt d) w.queue
      (write_packet w.queue head_idx desc addr room pkt payload w.memory) q i
      (if_both IsDevice (pkt.op == 3) (dropped-IsDevice key d i) i)

pub serve_rx-IsWork : (now : ℕ) (w : Work) → IsWork w → IsWork (serve_rx now w).0
unfolding serve_rx
serve_rx-IsWork now w i =
    let keys = keys_where (λ conn. any_pending conn.pending_rx) w.device.connections in
    let fill = λ (head_idx : ℕ) (desc : VirtqDesc) (room : Option ℕ × ℕ).
      fill_rx head_idx desc room w (first_packet now room.1 keys w.device) in
    let for_room = λ (head_idx : ℕ) (desc : VirtqDesc).
      on_ok w (rx_room w.memory w.queue desc) (fill head_idx desc) in
    if_both (λ (o : Outcome). IsWork o.0) (length keys == 0) i
      (on_ok-IsWork w (read_index w.memory w.queue (head_offset w.queue))
        (λ head_idx. on_ok w (read_desc w.memory w.queue head_idx) (for_room head_idx)) i
        (λ head_idx.
          on_ok-IsWork w (read_desc w.memory w.queue head_idx) (for_room head_idx) i (λ desc.
            on_ok-IsWork w (rx_room w.memory w.queue desc) (fill head_idx desc) i (λ room.
              fill_rx-IsWork head_idx desc room w (first_packet now room.1 keys w.device) i.0
                (first_packet-IsDevice now room.1 keys w.device i.1)))))
