-- ===== src/Vsock/Tracked.antt =====
-- The connections that the device of vsock.rs keeps, over all that its queues and the host do.
use mathlib.Core.Logic.{ite}
use visor.Prelude.{
  ℕ, ◌≡◌, refl, ◌∙◌, List, [], ◌∷◌, Option, none, some, Result, ok, err, subst, All,
}
use visor.Prelude.Maps
use visor.Prelude.Maps.{Map}
use visor.Memory.{GuestMemory}
use visor.Virtio.{VirtQueue}
use visor.Vsock.{VsockOp, VsockPacket, from_u16}
use visor.Vsock.Fifo.{IsTxBuf, new-IsTxBuf}
use visor.Vsock.Connection.{VsockConnection, new_peer_init}
use visor.Vsock.Sending.{send_pkt}
use visor.Vsock.Receiving.{recv_pkt}
use visor.Vsock.Accepting.{send_pkt-Queued, recv_pkt-Queued}
use visor.Vsock.Device.{
  QueueError, ConnMapKey, key_discrete, VsockDevice, add_connection, remove_connection, remove_all,
  host_cid, accept, forward, by_op, dispatch, handle_packet, handle_tx_chain, read_packet,
}
use visor.Vsock.Ports.{ports-send_pkt, ports-recv_pkt}

-- The connection under a key has its ports, and its ring is well-formed.
pub record IsTracked (entry : ConnMapKey × VsockConnection) : Type 0 where
  pub local : entry.1.local_port ≡ entry.0.0
  pub peer : entry.1.peer_port ≡ entry.0.1
  pub ring : IsTxBuf entry.1.tx_buf

abbrev pub AllTracked : Map ConnMapKey VsockConnection → Type 0
AllTracked m = All IsTracked m

abbrev pub IfSome : ConnMapKey → Option VsockConnection → Type 0
IfSome key none = Unit
IfSome key (some conn) = IsTracked (key, conn)

remove-AllTracked :
    (key : ConnMapKey) (m : Map ConnMapKey VsockConnection)
    → AllTracked m
    → AllTracked (Maps.remove key_discrete key m)
unfolding Maps.remove
remove-AllTracked key [] h = tt
remove-AllTracked key ((k, conn) ∷ m) h =
    elim (key_discrete k key)
      as (λ t.
        AllTracked
          (ite t (Maps.remove key_discrete key m) ((k, conn) ∷ Maps.remove key_discrete key m))) [
            | yes e ↦ remove-AllTracked key m h.1
            | no n ↦ (h.0, remove-AllTracked key m h.1)
          ]

pub get-AllTracked :
    (key : ConnMapKey) (m : Map ConnMapKey VsockConnection)
    → AllTracked m
    → IfSome key (Maps.get key_discrete key m)
unfolding Maps.get
get-AllTracked key [] h = tt
get-AllTracked key ((k, conn) ∷ m) h =
    elim (key_discrete k key)
      as (λ t. IfSome key (ite t (some conn) (Maps.get key_discrete key m))) [
        | yes e ↦ subst (λ (j : ConnMapKey). IsTracked (j, conn)) e h.0
        | no n ↦ get-AllTracked key m h.1
      ]

pub add-AllTracked :
    (key : ConnMapKey) (conn : VsockConnection) (d : VsockDevice)
    → IsTracked (key, conn)
    → AllTracked d.connections
    → AllTracked (add_connection key conn d).connections
unfolding add_connection Maps.insert
add-AllTracked key conn d c h = (c, remove-AllTracked key d.connections h)

pub dropped-AllTracked :
    (key : ConnMapKey) (d : VsockDevice)
    → AllTracked d.connections
    → AllTracked (remove_connection key d).connections
unfolding remove_connection
dropped-AllTracked key d h = remove-AllTracked key d.connections h

pub all-AllTracked :
    (keys : List ConnMapKey) (d : VsockDevice)
    → AllTracked d.connections
    → AllTracked (remove_all keys d).connections
unfolding remove_all
all-AllTracked [] d h = h
all-AllTracked (key ∷ keys) d h =
    all-AllTracked keys (remove_connection key d) (dropped-AllTracked key d h)

sent-IsTracked :
    (now : ℕ) (pkt : VsockPacket) (payload : List ℕ) (key : ConnMapKey) (c : VsockConnection)
    → IsTracked (key, c)
    → IsTracked (key, (send_pkt now pkt payload c).0)
sent-IsTracked now pkt payload key c t =
    let p = ports-send_pkt now pkt payload c in
    record {
      local = p.0 ∙ t.local;
      peer = p.1 ∙ t.peer;
      ring = (send_pkt-Queued now pkt payload c t.ring).ring;
    }

pub received-IsTracked :
    (now max_data_len : ℕ) (key : ConnMapKey) (c : VsockConnection)
    → IsTracked (key, c)
    → IsTracked (key, (recv_pkt now max_data_len c).0)
received-IsTracked now max_data_len key c t =
    let p = ports-recv_pkt now max_data_len c in
    record {
      local = p.0 ∙ t.local;
      peer = p.1 ∙ t.peer;
      ring = (recv_pkt-Queued now max_data_len c t.ring).ring;
    }

by_op-AllTracked :
    (a b c : VsockDevice) (op : Option VsockOp)
    → AllTracked a.connections
    → AllTracked b.connections
    → AllTracked c.connections
    → AllTracked (by_op a b c op).connections
unfolding by_op
by_op-AllTracked a b c none h i j = j
by_op-AllTracked a b c (some VsockOp.request) h i j = h
by_op-AllTracked a b c (some VsockOp.response) h i j = j
by_op-AllTracked a b c (some VsockOp.rst) h i j = i
by_op-AllTracked a b c (some VsockOp.shutdown) h i j = j
by_op-AllTracked a b c (some VsockOp.rw_data) h i j = j
by_op-AllTracked a b c (some VsockOp.credit_update) h i j = j
by_op-AllTracked a b c (some VsockOp.credit_request) h i j = j

accept-AllTracked :
    (key : ConnMapKey) (fresh : VsockConnection) (d : VsockDevice) (found : Option VsockConnection)
    → IsTracked (key, fresh)
    → AllTracked d.connections
    → AllTracked (accept key fresh d found).connections
unfolding accept
accept-AllTracked key fresh d none t h = add-AllTracked key fresh d t h
accept-AllTracked key fresh d (some conn) t h = h

forward-AllTracked :
    (now : ℕ) (pkt : VsockPacket) (payload : List ℕ) (key : ConnMapKey) (d : VsockDevice)
    (found : Option VsockConnection)
    → IfSome key found
    → AllTracked d.connections
    → AllTracked (forward now pkt payload key d found).connections
unfolding forward
forward-AllTracked now pkt payload key d none t h = h
forward-AllTracked now pkt payload key d (some conn) t h =
    add-AllTracked key (send_pkt now pkt payload conn).0 d
      (sent-IsTracked now pkt payload key conn t) h

fresh-IsTracked :
    (guest_cid local_port peer_port alloc : ℕ)
    → IsTracked
        ((local_port, peer_port), new_peer_init host_cid guest_cid local_port peer_port alloc)
unfolding new_peer_init
fresh-IsTracked guest_cid local_port peer_port alloc = record {
  local = refl;
  peer = refl;
  ring = new-IsTxBuf;
}

dispatch-AllTracked :
    (now : ℕ) (pkt : VsockPacket) (payload : List ℕ) (d : VsockDevice)
    → AllTracked d.connections
    → AllTracked (dispatch now pkt payload d).connections
unfolding dispatch
dispatch-AllTracked now pkt payload d h =
    let key : ConnMapKey = (pkt.dst_port, pkt.src_port) in
    let found = Maps.get key_discrete key d.connections in
    let fresh = new_peer_init host_cid d.guest_cid pkt.dst_port pkt.src_port pkt.buf_alloc in
    by_op-AllTracked (accept key fresh d found) (remove_connection key d)
      (forward now pkt payload key d found) (from_u16 pkt.op)
      (accept-AllTracked key fresh d found
        (fresh-IsTracked d.guest_cid pkt.dst_port pkt.src_port pkt.buf_alloc) h)
      (dropped-AllTracked key d h)
      (forward-AllTracked now pkt payload key d found (get-AllTracked key d.connections h) h)

handle_packet-AllTracked :
    (now : ℕ) (d : VsockDevice) (r : Result {0, 0} (Option (VsockPacket × List ℕ)) QueueError)
    → AllTracked d.connections
    → AllTracked (handle_packet now d r).connections
unfolding handle_packet
handle_packet-AllTracked now d (ok (some (pkt, payload))) h =
    dispatch-AllTracked now pkt payload d h
handle_packet-AllTracked now d (ok none) h = h
handle_packet-AllTracked now d (err e) h = h

pub handle_tx_chain-AllTracked :
    (now : ℕ) (m : GuestMemory) (q : VirtQueue) (head_idx : ℕ) (d : VsockDevice)
    → AllTracked d.connections
    → AllTracked (handle_tx_chain now m q head_idx d).connections
unfolding handle_tx_chain
handle_tx_chain-AllTracked now m q head_idx d h =
    handle_packet-AllTracked now d (read_packet m q head_idx) h
