-- ===== src/Vsock/Connection.antt =====
-- The connections of vsock.rs. A point of time is a number of milliseconds, and the clock an argument. The
-- pending indications are the five bits of the source's mask. The bytes from the host are a list.
use visor.Prelude.{
  ℕ, Bool, true, false, ◌&&◌, ◌||◌, List, [], ◌++◌, Option, none, some, Result, ok, err, ltb, leb,
  if◌then◌else◌,
}
use visor.Vsock.TxBuf
use visor.Vsock.TxBuf.{TxBuf, VsockError, wrapping_add, wrapping_sub, conn_tx_buf_size}

abbrev pub credit_update_threshold : ℕ
credit_update_threshold = 4096

abbrev pub request_timeout_ms : ℕ
request_timeout_ms = 2000

abbrev pub shutdown_timeout_ms : ℕ
shutdown_timeout_ms = 2000

pub data ConnState : Type 0 where
  local_init peer_init established local_closed killed : ConnState
  peer_closed : (no_recv no_send : Bool) → ConnState

pub record PendingRxSet : Type 0 where
  pub request : Bool
  pub response : Bool
  pub rst : Bool
  pub rw_data : Bool
  pub credit_update : Bool

abbrev pub no_indication : PendingRxSet
no_indication = record {
  request = false;
  response = false;
  rst = false;
  rw_data = false;
  credit_update = false;
}

-- `pending_rx.is_empty()` the other way round.
abbrev pub any_pending : PendingRxSet → Bool
any_pending p = p.request || (p.response || (p.rst || (p.rw_data || p.credit_update)))

pub record VsockConnection : Type 0 where
  pub state : ConnState
  pub local_cid : ℕ
  pub peer_cid : ℕ
  pub local_port : ℕ
  pub peer_port : ℕ
  pub tx_buf : TxBuf
  pub fwd_cnt : ℕ
  pub peer_buf_alloc : ℕ
  pub peer_fwd_cnt : ℕ
  pub rx_cnt : ℕ
  pub last_fwd_cnt_to_peer : ℕ
  pub pending_rx : PendingRxSet
  pub expiry : Option ℕ
  pub rx_buf : List ℕ
  pub host_closed : Bool

abbrev new_in : ConnState → PendingRxSet → ℕ → ℕ → ℕ → ℕ → ℕ → VsockConnection
new_in state pending local_cid peer_cid local_port peer_port peer_buf_alloc = record {
  state = state;
  local_cid = local_cid;
  peer_cid = peer_cid;
  local_port = local_port;
  peer_port = peer_port;
  tx_buf = TxBuf.new;
  fwd_cnt = 0;
  peer_buf_alloc = peer_buf_alloc;
  peer_fwd_cnt = 0;
  rx_cnt = 0;
  last_fwd_cnt_to_peer = 0;
  pending_rx = pending;
  expiry = none;
  rx_buf = [];
  host_closed = false;
}

unfoldable pub new_peer_init : ℕ → ℕ → ℕ → ℕ → ℕ → VsockConnection
unfolding TxBuf.new
new_peer_init = new_in ConnState.peer_init (record no_indication { response = true })

unfoldable pub new_local_init : ℕ → ℕ → ℕ → ℕ → VsockConnection
unfolding TxBuf.new
new_local_init local_cid peer_cid local_port peer_port =
    new_in ConnState.local_init (record no_indication { request = true }) local_cid peer_cid
      local_port peer_port 0

unfoldable pub has_expired : ℕ → VsockConnection → Bool
has_expired now c = elim c.expiry [ none ↦ false | some t ↦ leb t now ]

unfoldable pub will_expire : ℕ → VsockConnection → Bool
will_expire now c = elim c.expiry [ none ↦ false | some t ↦ ltb now t ]

abbrev pub pend_rst : VsockConnection → VsockConnection
pend_rst c = record c { pending_rx = record c.pending_rx { rst = true } }

abbrev pub pend_rw : VsockConnection → VsockConnection
pend_rw c = record c { pending_rx = record c.pending_rx { rw_data = true } }

abbrev pub pend_credit_update : VsockConnection → VsockConnection
pend_credit_update c = record c { pending_rx = record c.pending_rx { credit_update = true } }

unfoldable pub kill : VsockConnection → VsockConnection
kill c = pend_rst (record c { state = ConnState.killed })

unfoldable pub push_host_data : List ℕ → VsockConnection → VsockConnection
push_host_data bytes c = pend_rw (record c { rx_buf = c.rx_buf ++ bytes })

unfoldable pub notify_host_closed : VsockConnection → VsockConnection
notify_host_closed c = pend_rw (record c { host_closed = true })

abbrev pub peer_avail_credit : VsockConnection → ℕ
peer_avail_credit c = wrapping_sub c.peer_buf_alloc (wrapping_sub c.rx_cnt c.peer_fwd_cnt)

abbrev pub peer_needs_credit_update : VsockConnection → Bool
peer_needs_credit_update c =
    ltb (wrapping_sub conn_tx_buf_size (wrapping_sub c.fwd_cnt c.last_fwd_cnt_to_peer))
      credit_update_threshold

abbrev pub both_closed : ConnState → Bool
both_closed (ConnState.peer_closed true true) = true
both_closed _ = false

-- What `flush_tx_buf` does behind a successful flush.
unfoldable pub after_flush : ℕ → TxBuf → VsockConnection → VsockConnection
after_flush flushed tx_buf conn =
    let c = record conn { tx_buf = tx_buf; fwd_cnt = wrapping_add conn.fwd_cnt flushed } in
    if both_closed c.state && TxBuf.is_empty tx_buf
    then pend_rst c
    else (if peer_needs_credit_update c then pend_credit_update c else c)

-- The result of the flush, put into the connection.
unfoldable pub flushed_into :
    {S : Type 0}
    → VsockConnection
    → Option (Result {0, 0} ℕ VsockError × TxBuf × S)
    → Option (Result {0, 0} ℕ VsockError × VsockConnection × S)
flushed_into c none = none
flushed_into c (some (err e, tx_buf, s)) = some (err e, record c { tx_buf = tx_buf }, s)
flushed_into c (some (ok n, tx_buf, s)) = some (ok n, after_flush n tx_buf c, s)

unfoldable pub flush_tx_buf :
    {S : Type 0}
    → TxBuf.Sink S
    → VsockConnection
    → S
    → Option (Result {0, 0} ℕ VsockError × VsockConnection × S)
flush_tx_buf sink c s = flushed_into c (TxBuf.flush_to sink 2 c.tx_buf s)
